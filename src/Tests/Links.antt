-- ===== src/Tests/Links.antt =====
-- Runs of the list operations in a small store: the list at 1 has the elements 10 and 11.
use diplomski_rad.Base.{ℕ, ◌≡◌, refl, false, true, some, [], ◌∷◌, ◌==◌, arith, if◌then◌else◌}
use diplomski_rad.Base.Members.{has}
use diplomski_rad.Threads.{at_first, at_last}
use diplomski_rad.Chains.{ListH, Store, list_append, list_remove}
use diplomski_rad.Chains.Remove.{Removed, list_remove-Removed}
use diplomski_rad.Chains.Segments.{IsList}
use diplomski_rad.Chains.Append.{Added, list_append-Added}

abbrev pub header : ℕ → ListH
header b =
    if b == 10
    then record { prev = 0; next = 11; object = 100 }
    else if b == 11
    then record { prev = 10; next = 0; object = 110 }
    else record { prev = 0; next = 0; object = 0 }

abbrev pub two_items : Store
two_items = record {
  hdr = header;
  list = λ l. if l == 1 then record { first = 10; last = 11 } else record { first = 0; last = 0 };
}

pub two_items-IsList : IsList two_items 1 (10 ∷ 11 ∷ [])
unfolding has
two_items-IsList = record {
  seg = (refl, omega arith, refl, (refl, omega arith, refl, (refl, refl)));
  once = (refl, (refl, tt));
}

unlisted : has 12 (10 ∷ 11 ∷ []) ≡ false
unfolding has
unlisted = refl

list_append-Added_example :
    (s' : Store) × (list_append 1 120 12 two_items ≡ some s')
    × Added at_last 1 120 12 (10 ∷ 11 ∷ 12 ∷ []) two_items s'
list_append-Added_example =
    list_append-Added 1 120 12 two_items (omega arith) (omega arith) (omega arith) (10 ∷ 11 ∷ [])
      two_items-IsList unlisted

listed : has 11 (10 ∷ 11 ∷ []) ≡ true
unfolding has
listed = refl

list_remove-Removed_example :
    (s' : Store) × (list_remove 1 at_first 11 two_items ≡ some (110, s'))
    × Removed 1 11 (10 ∷ 11 ∷ []) two_items s'
list_remove-Removed_example =
    list_remove-Removed 1 at_first 11 two_items (10 ∷ 11 ∷ []) (omega arith) two_items-IsList listed
