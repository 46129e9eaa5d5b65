-- ===== src/Locks/Sound.antt =====
-- No two tasks have locked the layers of one node, in any interleaving.
use chiyocore.Base.{
  ℕ, zero, suc, ◌<◌, ◌≡◌, ◌≢◌, refl, sym, subst, ◌∙◌, arith, Bool, true, false, ◌&&◌, ◌||◌, not,
  none, Bool-cases, inl, inr, ◌⊎◌, ◌==◌,
}
use chiyocore.Locks.{
  Grants, IsLawful, Role, receive, serve, retry, Want, layer_lock, Task, clashes, any, clear,
  is_own, update, Reach, start, later,
}
use chiyocore.Locks.Order.{Ordered, IsOrdered, Performed, perform-Performed}

pub search :
    (n : ℕ) (p : ℕ → Bool) → ((j : ℕ) × (j < n) × (p j ≡ true)) ⊎ ((j : ℕ) → j < n → p j ≡ false)
search zero p = inr (λ j h. absurd (omega arith))
search (suc n) p = elim (Bool-cases (p n)) [
  | inl here ↦ inl (n, omega arith, here)
  | inr other ↦ elim (search n p) [
    | inl (j, below, h) ↦ inl (j, omega arith, h)
    | inr nowhere ↦ inr (λ j h. elim (Bool-cases (j == n)) [
      | inl same ↦ subst (λ k. p k ≡ false) (ground arith) other
      | inr apart ↦ nowhere j (ground arith)
    ])
  ]
]

any-false : (n : ℕ) (p : ℕ → Bool) → ((j : ℕ) → j < n → p j ≡ false) → any n p ≡ false
unfolding any
any-false zero p h = refl
any-false (suc n) p h = ground (arith, h n (omega arith), any-false n p λ j b. h j (omega arith))

any-none : (n : ℕ) (p : ℕ → Bool) → any n p ≡ false → (j : ℕ) → j < n → p j ≡ false
unfolding any
any-none zero p h j b = absurd (omega arith)
any-none (suc n) p h j b = elim (Bool-cases (j == n)) [
  | inl same ↦ subst (λ k. p k ≡ false) (ground arith) (or_left (p n) (any n p) h)
  | inr apart ↦ any-none n p (or_right (p n) (any n p) h) j (ground arith)
]
  where
    or_left : (a b : Bool) → (a || b) ≡ false → a ≡ false
    or_left a b h = ground arith

    or_right : (a b : Bool) → (a || b) ≡ false → b ≡ false
    or_right a b h = ground arith

pub clear_of :
    (n : ℕ) (s : ℕ → Task) (i : ℕ) (w : Want)
    → is_own w ≡ false
    → ((j : ℕ) → j < n → j ≢ i → clashes (s i).node w (s j) ≡ false)
    → clear n s i w ≡ true
unfolding clear
clear_of n s i w other h = rw other (
    rw
      (any-false n (λ j. not (j == i) && clashes (s i).node w (s j))
        λ j b. elim (Bool-cases (j == i)) [
          | inl same ↦ rw same refl
          | inr apart ↦ rw apart (h j b (ground arith))
        ])
      refl)

-- No other task has the layers of the same node locked.
abbrev pub Apart : ℕ → (ℕ → Task) → Type 0
Apart n s =
    (i j : ℕ)
    → i < n
    → j < n
    → i ≢ j
    → (s i).node ≡ (s j).node
    → ((s i).layer && (s j).layer) ≡ false

other_layer_free :
    (n : ℕ) (s : ℕ → Task) (i j : ℕ)
    → clear n s i layer_lock ≡ true
    → j < n
    → j ≢ i
    → (s i).node ≡ (s j).node
    → (s j).layer ≡ false
unfolding clear clashes
other_layer_free n s i j h b apart same =
    let test : ℕ → Bool = λ j. not (j == i) && ((s i).node == (s j).node && (s j).layer) in
    let here = any-none n test (not_true (any n test) h) j b in ground arith
  where
    not_true : (x : Bool) → not x ≡ true → x ≡ false
    not_true x h = ground arith

pub record IsSound (n : ℕ) (s : ℕ → Task) : Type 0 where
  pub ordered : (i : ℕ) → IsOrdered (s i)
  pub apart : Apart n s

update-same : (s : ℕ → Task) (i j : ℕ) (t : Task) → (j == i) ≡ true → update s i t j ≡ t
update-same s i j t e = rw e refl

update-other : (s : ℕ → Task) (i j : ℕ) (t : Task) → (j == i) ≡ false → update s i t j ≡ s j
update-other s i j t e = rw e refl

starting-IsOrdered : (r : Role) → Ordered r false none none
starting-IsOrdered receive = ((λ e. absurd (ground arith)), λ e. absurd (ground arith))
starting-IsOrdered serve = ((λ e. absurd (ground arith)), λ e. absurd (ground arith))
starting-IsOrdered retry = (refl, refl, λ e. absurd (ground arith))

-- A task after its step against another one.
other_layer_open :
    (n : ℕ) (s : ℕ → Task) (i k : ℕ) (t : Task)
    → Apart n s
    → i < n
    → k < n
    → k ≢ i
    → Performed (s i) (clear n s i) t
    → t.node ≡ (s k).node
    → (t.layer && (s k).layer) ≡ false
other_layer_open n s i k t apart a b other (ordered, node, layer) same = elim (Bool-cases t.layer) [
  | inl locked ↦
      let node' : (s i).node ≡ (s k).node = sym node ∙ same in
      elim (layer locked) [
        | inl before ↦ ground (arith, apart i k a b (λ e. other (sym e)) node')
        | inr free ↦ ground (arith, other_layer_free n s i k free b other node')
      ]
  | inr open_layer ↦ rw open_layer refl
]

abbrev Apart2 : Task → Task → Type 0
Apart2 x y = x.node ≡ y.node → (x.layer && y.layer) ≡ false

pair-Apart2 : (x y x' y' : Task) → x ≡ x' → y ≡ y' → Apart2 x' y' → Apart2 x y
pair-Apart2 x y x' y' e f h = subst (λ z. Apart2 z y) (sym e) (subst (λ z. Apart2 x' z) (sym f) h)

swap-Apart2 : (x y : Task) → Apart2 x y → Apart2 y x
swap-Apart2 x y h e = ground (arith, h (sym e))

update-Apart :
    (n : ℕ) (s : ℕ → Task) (i : ℕ) (t : Task)
    → Apart n s
    → i < n
    → Performed (s i) (clear n s i) t
    → Apart n (update s i t)
update-Apart n s i t apart a done j k b c other = elim (Bool-cases (j == i)) [
  | inl here ↦ elim (Bool-cases (k == i)) [
    | inl there ↦ absurd (other (ground arith))
    | inr elsewhere ↦
        pair-Apart2 (update s i t j) (update s i t k) t (s k) (update-same s i j t here)
          (update-other s i k t elsewhere)
          (other_layer_open n s i k t apart a c (λ e. ground arith) done)
  ]
  | inr aside ↦ elim (Bool-cases (k == i)) [
    | inl there ↦
        pair-Apart2 (update s i t j) (update s i t k) (s j) t (update-other s i j t aside)
          (update-same s i k t there)
          (swap-Apart2 t (s j) (other_layer_open n s i j t apart a b (λ e. ground arith) done))
    | inr elsewhere ↦
        pair-Apart2 (update s i t j) (update s i t k) (s j) (s k) (update-other s i j t aside)
          (update-other s i k t elsewhere) (apart j k b c other)
  ]
]

pub reach-IsSound :
    (grants : Grants) (lawful : IsLawful grants) (n : ℕ) (role : ℕ → Role) (node : ℕ → ℕ)
    (s : ℕ → Task)
    → Reach grants n role node s
    → IsSound n s
reach-IsSound grants lawful n role node s start = record {
  ordered = λ i. (starting-IsOrdered (role i), tt);
  apart = λ i j a b other same. refl;
}
reach-IsSound grants lawful n role node s (later {s = s'} {t = t} i e r a h) =
    let before = reach-IsSound grants lawful n role node s' r in
    let (order, node', layer) =
      perform-Performed e (grants n s' i) (s' i) t (s' i).wants refl (before.ordered i) h in
    let done : Performed (s' i) (clear n s' i) t = (
      order,
      node',
      λ k. elim (layer k) [
        | inl before ↦ inl before
        | inr free ↦ inr (lawful.exclusive n s' i layer_lock free)
      ],
    ) in
    record {
      ordered = λ j. elim (Bool-cases (j == i)) [
        | inl same ↦ rw same done.0
        | inr other ↦ rw other (before.ordered j)
      ];
      apart = update-Apart n s' i t before.apart a done;
    }
