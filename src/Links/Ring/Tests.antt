-- ===== src/Links/Ring/Tests.antt =====
-- The lists of kern/list.h at concrete headers, and the theorems at them.
use mugo.Base.{◌≡◌, refl, true, [], ◌∷◌, arith}
use mugo.Links.{Links, list_head_init, list_add, list_remove, list_is_empty, update}
use mugo.Links.Ring.{IsRing}
use mugo.Links.Ring.Add.{add-IsRing, add_last-IsRing}
use mugo.Links.Ring.Remove.{remove-IsRing}

abbrev zeroed : Links
zeroed = record { next = λ p. 0; prev = λ p. 0 }

-- A head at 100 with the members 200 and 300.
abbrev two : Links
two = record {
  next = update (update (update (λ p. 0) 100 200) 200 300) 300 100;
  prev = update (update (update (λ p. 0) 100 300) 200 100) 300 200;
}

-- The code builds that list.
built :
    let h = list_add 300 200 (list_add 200 100 (list_head_init 100 zeroed)) in
    (h.next 100 ≡ 200) × (h.next 200 ≡ 300) × (h.next 300 ≡ 100) × (h.prev 100 ≡ 300)
unfolding list_add list_head_init
built = (refl, refl, refl, refl)

emptied : list_is_empty 100 (list_remove 200 (list_remove 300 two)) ≡ true
unfolding list_is_empty list_remove
emptied = refl

two-IsRing : IsRing two 100 (200 ∷ 300 ∷ [])
two-IsRing = record { chain = omega arith; distinct = (refl, (refl, (refl, tt))) }

add-IsRing_example : IsRing (list_add 250 200 two) 100 (200 ∷ 250 ∷ 300 ∷ [])
add-IsRing_example = add-IsRing 250 (200 ∷ []) (300 ∷ []) two-IsRing refl

add_last-IsRing_example : IsRing (list_add 400 300 two) 100 (200 ∷ 300 ∷ 400 ∷ [])
add_last-IsRing_example = add_last-IsRing 400 (200 ∷ 300 ∷ []) two-IsRing refl

remove-IsRing_example : IsRing (list_remove 300 two) 100 (200 ∷ [])
remove-IsRing_example = remove-IsRing 300 (200 ∷ []) [] two-IsRing
