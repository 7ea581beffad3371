-- ===== src/Delta.antt =====
-- controller/delta.py and controller/remote_apply_delta.py: delta bundles.
pub mod Range
pub mod Bytes
pub mod Copy
pub mod Build
pub mod Apply
pub mod RemoteApply
pub mod Patch
pub mod Readable
pub mod RoundTrip
pub mod Applied
