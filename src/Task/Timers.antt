-- ===== src/Task/Timers.antt =====
-- spe_task.c: the timer tree, read in order, is a list sorted by expiry time.
use spe.Base.{
  ℕ, ◌+◌, ◌-◌, ◌≤◌, ◌<◌, ◌≡◌, refl, sym, ap, ◌∙◌, inl, inr, Option, none, some, List, [], ◌∷◌, ◌++◌,
  arith, ltb, ◌==◌, if◌then◌else◌, Bool-cases, ltb→lt, ltb-false→le, All,
}
use spe.Task.{Tree, leaf, node, inorder, RbTree, link, remove}

abbrev pub head? : List ℕ → Option ℕ
head? [] = none
head? (x ∷ xs) = some x

-- The documented behaviour of the red-black tree: it rebalances without changing the order.
pub record IsRbTree (rb : RbTree) : Type 0 where
  pub inorder-insert_color : (i : ℕ) (t : Tree) → inorder (rb.insert_color i t) ≡ inorder t
  pub inorder-erase : (i : ℕ) (t : Tree) → inorder (rb.erase i t) ≡ remove i (inorder t)
  pub first-inorder : (t : Tree) → rb.first t ≡ head? (inorder t)

abbrev pub count : ℕ → List ℕ → ℕ
count i [] = 0
count i (x ∷ xs) = (if x == i then 1 else 0) + count i xs

pub count-append : (i : ℕ) (xs ys : List ℕ) → count i (xs ++ ys) ≡ count i xs + count i ys
count-append i [] ys = omega arith
count-append i (x ∷ xs) ys = ground (arith, count-append i xs ys)

pub count-remove :
    (i j : ℕ) (xs : List ℕ)
    → count j (remove i xs) ≡ (if j == i then count j xs - 1 else count j xs)
unfolding remove
count-remove i j [] = ground arith
count-remove i j (x ∷ xs) = ground (arith, count-remove i j xs)

-- In the order of the expiry times `key`.
abbrev pub Sorted : (ℕ → ℕ) → List ℕ → Type 0
Sorted key [] = Unit
Sorted key (x ∷ xs) = All (λ y. key x ≤ key y) xs × Sorted key xs

module _ (key : ℕ → ℕ) where
  -- Behind all tasks that expire no later.
  pub insert : ℕ → ℕ → List ℕ → List ℕ
  insert e i [] = i ∷ []
  insert e i (x ∷ xs) = if ltb e (key x) then i ∷ x ∷ xs else x ∷ insert e i xs

  insert-left :
      (e i j : ℕ) (xs ys : List ℕ)
      → e < key j
      → insert e i (xs ++ (j ∷ ys)) ≡ insert e i xs ++ (j ∷ ys)
  unfolding insert
  insert-left e i j [] ys h = ground arith
  insert-left e i j (x ∷ xs) ys h = ground (arith, insert-left e i j xs ys h)

  insert-right :
      (e i j : ℕ) (xs ys : List ℕ)
      → key j ≤ e
      → All (λ y. key y ≤ e) xs
      → insert e i (xs ++ (j ∷ ys)) ≡ xs ++ (j ∷ insert e i ys)
  unfolding insert
  insert-right e i j [] ys h a = ground arith
  insert-right e i j (x ∷ xs) ys h a = ground (arith, insert-right e i j xs ys h a.1)

  All-left : (P : ℕ → Type 0) (xs ys : List ℕ) → All P (xs ++ ys) → All P xs
  All-left P [] ys a = tt
  All-left P (x ∷ xs) ys a = (a.0, All-left P xs ys a.1)

  All-mid : (P : ℕ → Type 0) (j : ℕ) (xs ys : List ℕ) → All P (xs ++ (j ∷ ys)) → P j
  All-mid P j [] ys a = a.0
  All-mid P j (x ∷ xs) ys a = All-mid P j xs ys a.1

  Sorted-left : (xs ys : List ℕ) → Sorted key (xs ++ ys) → Sorted key xs
  Sorted-left [] ys s = tt
  Sorted-left (x ∷ xs) ys s = (All-left (λ y. key x ≤ key y) xs ys s.0, Sorted-left xs ys s.1)

  Sorted-right : (j : ℕ) (xs ys : List ℕ) → Sorted key (xs ++ (j ∷ ys)) → Sorted key ys
  Sorted-right j [] ys s = s.1
  Sorted-right j (x ∷ xs) ys s = Sorted-right j xs ys s.1

  -- What stands in front of `j` expires no later than a task that expires no earlier than `j`.
  Sorted-before :
      (e j : ℕ) (xs ys : List ℕ) → key j ≤ e → Sorted key (xs ++ (j ∷ ys)) → All (λ y. key y ≤ e) xs
  Sorted-before e j [] ys h s = tt
  Sorted-before e j (x ∷ xs) ys h s =
      let first : key x ≤ key j = All-mid (λ y. key x ≤ key y) j xs ys s.0 in
      (omega arith, Sorted-before e j xs ys h s.1)

  -- The walk down the tree finds the place in the list.
  pub inorder-link :
      (e i : ℕ) (t : Tree)
      → Sorted key (inorder t)
      → inorder (link key e i t) ≡ insert e i (inorder t)
  unfolding link insert
  inorder-link e i leaf s = refl
  inorder-link e i (node l j r) s = elim (Bool-cases (ltb e (key j))) [
    | inl h ↦ rw h (
        ap (λ xs. xs ++ (j ∷ inorder r))
          (inorder-link e i l (Sorted-left (inorder l) (j ∷ inorder r) s))
        ∙ sym (insert-left e i j (inorder l) (inorder r) (ltb→lt _ _ h)))
    | inr h ↦ rw h (
        ap (λ xs. inorder l ++ (j ∷ xs))
          (inorder-link e i r (Sorted-right j (inorder l) (inorder r) s))
        ∙ sym (
            insert-right e i j (inorder l) (inorder r) (ltb-false→le _ _ h)
              (Sorted-before e j (inorder l) (inorder r) (ltb-false→le _ _ h) s)))
  ]

  pub count-insert :
      (e i j : ℕ) (xs : List ℕ) → count j (insert e i xs) ≡ (if i == j then 1 else 0) + count j xs
  unfolding insert
  count-insert e i j [] = refl
  count-insert e i j (x ∷ xs) = ground (arith, count-insert e i j xs)

-- A statement about each element of a list follows from one about each number that it counts.
pub All-of_count : (P : ℕ → Type 0) (xs : List ℕ) → ((j : ℕ) → 0 < count j xs → P j) → All P xs
All-of_count P [] h = tt
All-of_count P (x ∷ xs) h = (h x (ground arith), All-of_count P xs (λ j c. h j (ground arith)))

pub All-of_all : (P : ℕ → Type 0) (xs : List ℕ) → All P xs → (j : ℕ) → 0 < count j xs → P j
All-of_all P [] a j c = absurd (omega arith)
All-of_all P (x ∷ xs) a j c = elim (Bool-cases (x == j)) [
  | inl e ↦ let same : x ≡ j = ground arith in rw (← same) a.0
  | inr e ↦ All-of_all P xs a.1 j (ground arith)
]

module _ (key key' : ℕ → ℕ) where
  -- Sortedness looks at the keys of the elements only.
  pub Sorted-agree : (xs : List ℕ) → All (λ y. key' y ≡ key y) xs → Sorted key xs → Sorted key' xs
  Sorted-agree [] a s = tt
  Sorted-agree (x ∷ xs) a s = (
    All-of_count (λ y. key' x ≤ key' y) xs
        (λ j c. omega (
          arith,
          a.0,
          All-of_all (λ y. key' y ≡ key y) xs a.1 j c,
          All-of_all (λ y. key x ≤ key y) xs s.0 j c,
        )),
    Sorted-agree xs a.1 s.1,
  )

  below_inserted :
      (e i x j : ℕ) (xs : List ℕ)
      → key' i ≡ e
      → All (λ y. key' y ≡ key y) (x ∷ xs)
      → key x ≤ e
      → All (λ y. key x ≤ key y) xs
      → 0 < count j (insert key e i xs)
      → key' x ≤ key' j
  below_inserted e i x j xs k a high s c = elim (Bool-cases (i == j)) [
    | inl q ↦ let same : i ≡ j = ground arith in rw (← same) (omega (arith, a.0))
    | inr q ↦
        let old : 0 < count j xs = ground (arith, count-insert key e i j xs) in
        omega (
          arith,
          a.0,
          All-of_all (λ y. key' y ≡ key y) xs a.1 j old,
          All-of_all (λ y. key x ≤ key y) xs s j old,
        )
  ]

  pub insert-Sorted :
      (e i : ℕ) (xs : List ℕ)
      → key' i ≡ e
      → All (λ y. key' y ≡ key y) xs
      → Sorted key xs
      → Sorted key' (insert key e i xs)
  unfolding insert
  insert-Sorted e i [] k a s = (tt, tt)
  insert-Sorted e i (x ∷ xs) k a s = elim (Bool-cases (ltb e (key x))) [
    | inl h ↦
        let low : e < key x = ltb→lt _ _ h in
        rw h (
          (
            omega (arith, a.0),
            All-of_count (λ y. key' i ≤ key' y) xs
                (λ j c. omega (
                  arith,
                  All-of_all (λ y. key' y ≡ key y) xs a.1 j c,
                  All-of_all (λ y. key x ≤ key y) xs s.0 j c,
                )),
          ),
          Sorted-agree (x ∷ xs) a s,
        )
    | inr h ↦
        let high : key x ≤ e = ltb-false→le _ _ h in
        rw h (
          All-of_count (λ y. key' x ≤ key' y) (insert key e i xs)
              (λ j c. below_inserted e i x j xs k a high s.0 c),
          insert-Sorted e i xs k a.1 s.1,
        )
  ]

pub remove-Sorted : (key : ℕ → ℕ) (i : ℕ) (xs : List ℕ) → Sorted key xs → Sorted key (remove i xs)
unfolding remove
remove-Sorted key i [] s = tt
remove-Sorted key i (x ∷ xs) s = elim (Bool-cases (x == i)) [
  | inl e ↦ rw e s.1
  | inr e ↦ rw e (
    All-of_count (λ y. key x ≤ key y) (remove i xs)
        (λ j c. All-of_all (λ y. key x ≤ key y) xs s.0 j (ground (arith, count-remove i j xs))),
    remove-Sorted key i xs s.1,
  )
]
