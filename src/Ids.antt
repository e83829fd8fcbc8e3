-- ===== src/Ids.antt =====
-- Vectors of ids, searched from the front, as the hook ledger and the event dispatcher use them:
-- `std::find`, `erase` at what it found, and the distance from behind it to the end.
use detour_mod_kit.Base.{
  ℕ, ◌≡◌, refl, Bool, false, not, ◌&&◌, ◌||◌, List, [], ◌∷◌, ◌++◌, Option, none, some, arith, ◌==◌,
  if◌then◌else◌, length,
}

unfoldable pub contains : ℕ → List ℕ → Bool
contains id [] = false
contains id (x ∷ xs) = x == id || contains id xs

unfoldable pub erase_first : ℕ → List ℕ → List ℕ
erase_first id [] = []
erase_first id (x ∷ xs) = if x == id then xs else x ∷ erase_first id xs

unfoldable pub newer_than : ℕ → List ℕ → Option ℕ
newer_than id [] = none
newer_than id (x ∷ xs) = if x == id then some (length xs) else newer_than id xs

-- No id stands twice.
abbrev pub Distinct : List ℕ → Type 0
Distinct [] = Unit {0}
Distinct (x ∷ xs) = (contains x xs ≡ false) × Distinct xs

pub contains-concat :
    (y : ℕ) (xs : List ℕ) (x : ℕ) → contains y (xs ++ x ∷ []) ≡ (contains y xs || x == y)
unfolding contains
contains-concat y [] x = ground arith
contains-concat y (z ∷ xs) x = ground (arith, contains-concat y xs x)

pub Distinct-concat :
    (xs : List ℕ) (x : ℕ) → Distinct xs → contains x xs ≡ false → Distinct (xs ++ x ∷ [])
unfolding contains
Distinct-concat [] x d h = (refl, tt)
Distinct-concat (y ∷ xs) x (e, d) h =
    (ground (arith, contains-concat y xs x), Distinct-concat xs x d (ground arith))

pub contains-erase_first :
    (y x : ℕ) (xs : List ℕ)
    → Distinct xs
    → contains y (erase_first x xs) ≡ (contains y xs && not (x == y))
unfolding contains erase_first
contains-erase_first y x [] d = refl
contains-erase_first y x (z ∷ xs) (e, d) = ground (arith, contains-erase_first y x xs d)

pub Distinct-erase_first : (x : ℕ) (xs : List ℕ) → Distinct xs → Distinct (erase_first x xs)
unfolding contains erase_first
Distinct-erase_first x [] d = tt
Distinct-erase_first x (z ∷ xs) (e, d) =
    ground (arith, contains-erase_first z x xs d, Distinct-erase_first x xs d)

pub erase_first-absent : (x : ℕ) (xs : List ℕ) → contains x xs ≡ false → erase_first x xs ≡ xs
unfolding contains erase_first
erase_first-absent x [] h = refl
erase_first-absent x (z ∷ xs) h = ground (arith, erase_first-absent x xs)

pub erase_first-concat :
    (x : ℕ) (xs : List ℕ) → contains x xs ≡ false → erase_first x (xs ++ x ∷ []) ≡ xs
unfolding contains erase_first
erase_first-concat x [] h = ground arith
erase_first-concat x (z ∷ xs) h = ground (arith, erase_first-concat x xs)

pub newer_than-absent : (x : ℕ) (xs : List ℕ) → contains x xs ≡ false → newer_than x xs ≡ none
unfolding contains newer_than
newer_than-absent x [] h = refl
newer_than-absent x (z ∷ xs) h = ground (arith, newer_than-absent x xs)

pub newer_than-concat :
    (x : ℕ) (xs : List ℕ) → contains x xs ≡ false → newer_than x (xs ++ x ∷ []) ≡ some 0
unfolding contains newer_than
newer_than-concat x [] h = ground arith
newer_than-concat x (z ∷ xs) h = ground (arith, newer_than-concat x xs)
