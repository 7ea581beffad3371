-- ===== src/Lib.antt =====
-- hv2pve moves a virtual machine from Hyper-V to Proxmox VE in stages. The part that decides what may
-- happen next is the controller, in Python under controller/; this library models it.
--
-- The parts, and how they interact. A subcommand of controller/hv2pve.py loads the migration's state
-- from a JSON file, tests it, acts on the Proxmox host over SSH, writes to the state object, and saves
-- it (Controller and its modules, one definition for the work on the state and one, `cmd_…`, with the
-- load and the save around it). The state object and its file are controller/state.py (State); its
-- gates controller/safety.py (Safety); the host controller/proxmox.py on controller/process.py (Proxmox
-- and Process); the import of a baseline controller/seed.py (Seed); the printed plans
-- controller/plan.py (Plan); and the bundles of changed ranges controller/delta.py and
-- controller/remote_apply_delta.py (Delta).
--
-- How code becomes definitions. Code that may raise is a function from a state to a result and a
-- state (Exec), so that what was written before a raise stays written. An exception keeps its class and
-- a fixed text (Exec.Error); which class it is decides the exit code (Controller.Main). The state of a
-- command is the world and its own copy of the migration's state (State.Record.Session). The world
-- (World) holds the appliance's files, the clock as a sequence of texts, and the list of commands that
-- were run; what a command answers is a function of the commands before it, on which nothing is
-- assumed. A JSON value is a tree without floats (Json); a dict is a list of unique keys, in the order
-- of insertion. Python's `int` is ℤ over the native naturals (Prelude.Int), and the text methods that
-- the code calls are Text, Text.Path and Json.Number, for ASCII letters, digits and spaces.
-- A disk, a payload and a target are lists of bytes (Delta.Bytes), and a bundle's metadata is a dict.
-- SHA-256 is a parameter of the definitions that use it, on which nothing is assumed; a command takes
-- it from the world. The appliance's binary files are apart from its JSON files (World.disks).
--
-- The command line. Controller.Options is what the code uses of `argparse`: words are told apart
-- (options in full, abbreviated or with `=`, negative numbers, plain words, `--`), then read one by
-- one into a namespace, with types, choices, defaults and required options. Controller.Subparsers is
-- `build_parser`, and Controller.Parser goes from the words to the exit code.
--
-- Bounds and fuel. The two chunked loops of a bundle (Delta.Copy) run on fuel, as many units as the
-- range has bytes. A round moves at least one byte; Delta.Copy.Laws shows that the fuel is enough for
-- every range that the source or the payload holds. All other loops are structural.
--
-- Two simplifications of JSON input: a section of the state or its history that has another type is
-- refused when the state is read, with the exception that Python raises where it first uses the
-- section; and a phase that is no text of the thirteen is kept as it is, and refused by `validate`.
-- One of JSON output: a file is its document, so the order in which a save writes the keys is left out.
--
-- What is not modelled: the PowerShell module and scripts under hyperv/, the C# reader under native/,
-- the shell under install/ and scripts/, the schema and the configuration; of the controller, fsync, timeouts
-- as numbers (a command may time out, as an answer), errors of the appliance's own disk, the sentences
-- that commands and argparse print, a payload that is its own target, and what a shell does with the
-- script that maps a volume.
--
-- The theorems stand in modules named Laws and in Controller.Order, Controller.Phases,
-- Controller.Sequence, Controller.CutoverRun, Controller.Rollback, Controller.SyncRound,
-- Controller.Gates, Controller.Bundles.Applied and .Contained, Controller.Parser.RoundTrip, Delta.RoundTrip,
-- Delta.Applied, Delta.RemoteApply.Within, Seed.Choice, Seed.Mapping, Seed.Planned, Proxmox.Bridge,
-- Proxmox.Volume.CleanUp and State.Payload.Read. Controller.Work carries an invariant of the state
-- object through a command's load, work and save, and over a history of commands, whatever the
-- invariant is; Controller.Order, Controller.Phases and Controller.Sequence fill it in.
-- Controller.Work.Saves does the same for commands that return, on which Controller.CutoverRun,
-- Controller.Rollback and Controller.SyncRound build. Seed.DiskMap says what the loop over the disks of a seed returns, for
-- Controller.Seeding.Laws. Examples applies the theorems to a small disk and a small migration.
pub mod Prelude
pub mod Text
pub mod Json
pub mod Exec
pub mod World
pub mod Process
pub mod Proxmox
pub mod State
pub mod Safety
pub mod Plan
pub mod Seed
pub mod Delta
pub mod Controller
pub mod Examples
