-- ===== src/Json/Laws.antt =====
use hv2pve.Prelude.{String, ◌≡◌, refl, false, some, arith, eq_iff, str_eq, if◌then◌else◌}
use hv2pve.Json.{Value, Fields, end, field, find, put, pop}

-- The laws of dicts, which serve with `find`, `put` and `pop` shut.

-- A write is seen at its own key, and nowhere else.
pub find-put :
    (j k : String) (v : Value) (d : Fields)
    → find j (put k v d) ≡ (if str_eq k j then some v else find j d)
unfolding find put
find-put j k v end = refl
find-put j k v (field i w d) = ground (arith, eq_iff k j, eq_iff i k, eq_iff i j, find-put j k v d)

-- A removal is seen at no other key.
pub find-pop : (j k : String) (d : Fields) → str_eq k j ≡ false → find j (pop k d) ≡ find j d
unfolding find pop
find-pop j k end h = refl
find-pop j k (field i w d) h = ground (arith, eq_iff k j, eq_iff i k, eq_iff i j, find-pop j k d h)
