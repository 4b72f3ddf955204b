-- ===== src/Gossip/Sort.antt =====
-- pkg/gossip/state.go: sort.Slice by version. Which order it gives equal versions is left open
-- by Go; the model takes one.
use pico.Prelude.{ℕ, ◌≤◌, inl, inr, List, [], ◌∷◌, ite, arith, dec_le, Elem, All}
use pico.Gossip.Types.{Entry}

unfoldable pub insert_by_version : Entry → List Entry → List Entry
insert_by_version e [] = e ∷ []
insert_by_version e (x ∷ xs) =
    ite (dec_le e.version x.version) (e ∷ x ∷ xs) (x ∷ insert_by_version e xs)

unfoldable pub sort_by_version : List Entry → List Entry
sort_by_version [] = []
sort_by_version (e ∷ es) = insert_by_version e (sort_by_version es)

-- Versions never fall along the list.
abbrev pub IsSorted : List Entry → Type 0
IsSorted [] = Unit
IsSorted (x ∷ xs) = All (λ y. x.version ≤ y.version) xs × IsSorted xs

pub Elem-insert_by_version :
    (a e : Entry) (xs : List Entry) → Elem a (e ∷ xs) → Elem a (insert_by_version e xs)
unfolding insert_by_version
Elem-insert_by_version a e [] m = m
Elem-insert_by_version a e (x ∷ xs) m =
    ground (arith, λ (h : Elem a (e ∷ xs)). Elem-insert_by_version a e xs h)

insert_by_version-Elem :
    (a e : Entry) (xs : List Entry) → Elem a (insert_by_version e xs) → Elem a (e ∷ xs)
unfolding insert_by_version
insert_by_version-Elem a e [] m = m
insert_by_version-Elem a e (x ∷ xs) m =
    ground (arith, λ (h : Elem a (insert_by_version e xs)). insert_by_version-Elem a e xs h)

insert_by_version-All :
    (v : ℕ) (e : Entry) (xs : List Entry)
    → v ≤ e.version
    → All (λ y. v ≤ y.version) xs
    → All (λ y. v ≤ y.version) (insert_by_version e xs)
unfolding insert_by_version
insert_by_version-All v e [] h hs = (h, tt)
insert_by_version-All v e (x ∷ xs) h hs = ground (arith, insert_by_version-All v e xs)

All-le_trans :
    (v w : ℕ) (xs : List Entry) → v ≤ w → All (λ y. w ≤ y.version) xs → All (λ y. v ≤ y.version) xs
All-le_trans v w [] h hs = tt
All-le_trans v w (x ∷ xs) h hs = (omega arith, All-le_trans v w xs h hs.1)

insert_by_version-IsSorted :
    (e : Entry) (xs : List Entry) → IsSorted xs → IsSorted (insert_by_version e xs)
unfolding insert_by_version
insert_by_version-IsSorted e [] s = (tt, tt)
insert_by_version-IsSorted e (x ∷ xs) s = ground (
  arith,
  insert_by_version-IsSorted e xs s.1,
  insert_by_version-All x.version e xs,
  All-le_trans e.version x.version xs,
)

pub sort_by_version-IsSorted : (xs : List Entry) → IsSorted (sort_by_version xs)
unfolding sort_by_version
sort_by_version-IsSorted [] = tt
sort_by_version-IsSorted (x ∷ xs) =
    insert_by_version-IsSorted x (sort_by_version xs) (sort_by_version-IsSorted xs)

-- Sorting keeps the entries.
pub Elem-sort_by_version : (a : Entry) (xs : List Entry) → Elem a xs → Elem a (sort_by_version xs)
unfolding sort_by_version
Elem-sort_by_version a [] m = m
Elem-sort_by_version a (x ∷ xs) (inl e) = Elem-insert_by_version a x (sort_by_version xs) (inl e)
Elem-sort_by_version a (x ∷ xs) (inr m) =
    Elem-insert_by_version a x (sort_by_version xs) (inr (Elem-sort_by_version a xs m))

pub sort_by_version-Elem : (a : Entry) (xs : List Entry) → Elem a (sort_by_version xs) → Elem a xs
unfolding sort_by_version
sort_by_version-Elem a [] m = m
sort_by_version-Elem a (x ∷ xs) m = elim (insert_by_version-Elem a x (sort_by_version xs) m) [
  | inl e ↦ inl e
  | inr n ↦ inr (sort_by_version-Elem a xs n)
]
