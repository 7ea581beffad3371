-- ===== src/Proxmox/Bridge.antt =====
-- controller/proxmox.py: the options of a network device, and its bridge.
use hv2pve.Prelude.{
  String, ◌≡◌, refl, ◌≢◌, inl, inr, true, false, List, [], ◌∷◌, ◌++◌, arith, Bool-cases,
}
use hv2pve.Text.{glue, cat, split, join, starts_with}
use hv2pve.Text.Laws.{IsWhole, AllWhole, split-AllWhole, split-join}
use hv2pve.Proxmox.{without_bridges, with_bridge}
use text.Mathlib.TextEquality.{Char-path}

without_bridges-AllWhole :
    (ps : List String) → AllWhole b',' ps → AllWhole b',' (without_bridges ps)
unfolding without_bridges
without_bridges-AllWhole [] h = tt
without_bridges-AllWhole (p ∷ ps) h = elim (Bool-cases (starts_with p "bridge=")) [
  | inl e ↦ rw e (without_bridges-AllWhole ps h.1)
  | inr e ↦ rw e (h.0, without_bridges-AllWhole ps h.1)
]

AllWhole-append :
    (ps : List String) (q : String)
    → AllWhole b',' ps
    → IsWhole b',' q
    → AllWhole b',' (ps ++ q ∷ [])
AllWhole-append [] q h k = (k, tt)
AllWhole-append (p ∷ ps) q h k = (h.0, AllWhole-append ps q h.1 k)

split-join_end :
    (ps : List String) (q : String)
    → AllWhole b',' ps
    → IsWhole b',' q
    → split b',' (join "," (ps ++ q ∷ [])) ≡ ps ++ q ∷ []
split-join_end [] q h k = split-join q [] (k, tt)
split-join_end (p ∷ ps) q h k = split-join p (ps ++ q ∷ []) (h.0, AllWhole-append ps q h.1 k)

with_bridge-parts :
    (net_value bridge : String)
    → IsWhole b',' bridge
    → split b',' (with_bridge net_value bridge)
      ≡ without_bridges (split b',' net_value) ++ cat "bridge=" bridge ∷ []
unfolding with_bridge cat
with_bridge-parts net_value bridge h =
    split-join_end (without_bridges (split b',' net_value)) (cat "bridge=" bridge)
      (without_bridges-AllWhole (split b',' net_value) (split-AllWhole b',' net_value))
      (refl, (refl, (refl, (refl, (refl, (refl, (refl, h)))))))

starts_with-cat : (p t : String) → starts_with (cat p t) p ≡ true
unfolding starts_with cat
starts_with-cat String.[] t = refl
starts_with-cat (glue c p) t = ground (arith, starts_with-cat p t)

cat_of_starts_with : (s p : String) → starts_with s p ≡ true → (t : String) × (s ≡ cat p t)
unfolding starts_with cat
cat_of_starts_with s String.[] h = (s, refl)
cat_of_starts_with String.[] (glue d p) h = absurd (ground arith)
cat_of_starts_with (glue c s) (glue d p) h =
    let (t, e) = cat_of_starts_with s p (ground arith) in
    let same : c ≡ d = Char-path c d (ground arith) in (t, λ i. glue (same i) (e i))

-- The second list is the first without its bridges, which are the texts `bridge=…`.
pub data WithoutBridges : List String → List String → Type 0 where
  none_left : WithoutBridges [] []
  drop :
      {p : String} {ps qs : List String} (bridge : String)
      → p ≡ cat "bridge=" bridge
      → WithoutBridges ps qs
      → WithoutBridges (p ∷ ps) qs
  keep :
      {p : String} {ps qs : List String}
      → ((bridge : String) → p ≢ cat "bridge=" bridge)
      → WithoutBridges ps qs
      → WithoutBridges (p ∷ ps) (p ∷ qs)

without_bridges-WithoutBridges : (ps : List String) → WithoutBridges ps (without_bridges ps)
unfolding without_bridges
without_bridges-WithoutBridges [] = none_left
without_bridges-WithoutBridges (p ∷ ps) = elim (Bool-cases (starts_with p "bridge=")) [
  | inl e ↦
      let (bridge, same) = cat_of_starts_with p "bridge=" e in
      rw e (drop bridge same (without_bridges-WithoutBridges ps))
  | inr e ↦ rw e (keep (no_bridge e) (without_bridges-WithoutBridges ps))
]
  where
    no_bridge : starts_with p "bridge=" ≡ false → (bridge : String) → p ≢ cat "bridge=" bridge
    no_bridge e bridge same =
        let starts = starts_with-cat "bridge=" bridge in
        let starts' : starts_with p "bridge=" ≡ true = rw same starts in ground (arith, e, starts')

-- With a bridge whose name has no comma, the options of the result are those of the old value that
-- are not of the form `bridge=…`, in their order, and then the new bridge.
pub with_bridge-split :
    (net_value bridge : String)
    → IsWhole b',' bridge
    → (others : List String) × WithoutBridges (split b',' net_value) others
      × (split b',' (with_bridge net_value bridge) ≡ others ++ cat "bridge=" bridge ∷ [])
with_bridge-split net_value bridge h = (
  without_bridges (split b',' net_value),
  without_bridges-WithoutBridges (split b',' net_value),
  with_bridge-parts net_value bridge h,
)
