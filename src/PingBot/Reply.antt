-- ===== src/PingBot/Reply.antt =====
-- Which messages the ping bot answers.
use mathlib.Core.List.{append_assoc}
use chiyocore.Base.{
  ℕ, ◌≡◌, ◌∙◌, ◌++◌, refl, sym, ap, arith, Bool, true, false, some, [], ◌∷◌, All, replicate, zero,
  suc, subst, Bool-cases, inl, inr, ◌==◌,
}
use chiyocore.Base.Bytes.{bytes_eq}
use chiyocore.Hal.Filesystem.{codes}
use chiyocore.PingBot.{
  Str, is_whitespace, trim_start, trim_end, trim, split_once, of_parts, ping_of,
}

module _ (p : ℕ → Bool) where
  -- The predicate takes all of these, or none of them.
  abbrev pub Takes : Str → Type 0
  Takes = All (λ c. p c ≡ true)

  abbrev pub Refuses : Str → Type 0
  Refuses = All (λ c. p c ≡ false)

  trim_end-Takes : (cs : Str) → Takes cs → trim_end p cs ≡ []
  unfolding trim_end
  trim_end-Takes [] t = refl
  trim_end-Takes (c ∷ cs) (first, t) = ground (arith, trim_end-Takes cs t)

  -- What is trimmed at the end ends behind a code point that is refused.
  trim_end-append :
      (xs : Str) (c : ℕ) (cs : Str)
      → p c ≡ false
      → trim_end p (xs ++ c ∷ cs) ≡ xs ++ c ∷ trim_end p cs
  unfolding trim_end
  trim_end-append [] c cs h = go (trim_end p cs) refl
    where
      go : (ys : Str) → trim_end p cs ≡ ys → trim_end p (c ∷ cs) ≡ c ∷ ys
      go [] e = ground arith
      go (y ∷ ys) e = ground arith
  trim_end-append (x ∷ xs) c cs h = go xs (trim_end-append xs c cs h)
    where
      go :
          (ys : Str)
          → trim_end p (xs ++ c ∷ cs) ≡ ys ++ c ∷ trim_end p cs
          → trim_end p (x ∷ (xs ++ c ∷ cs)) ≡ x ∷ (ys ++ c ∷ trim_end p cs)
      go [] e = ground arith
      go (y ∷ ys) e = ground arith

  trim_start-append : (cs xs : Str) → Takes cs → trim_start p (cs ++ xs) ≡ trim_start p xs
  unfolding trim_start
  trim_start-append [] xs t = refl
  trim_start-append (c ∷ cs) xs (first, t) = ground (arith, trim_start-append cs xs t)

  trim_start-first : (c : ℕ) (cs : Str) → p c ≡ false → trim_start p (c ∷ cs) ≡ c ∷ cs
  unfolding trim_start
  trim_start-first c cs h = rw h refl

split_once-append :
    (d : ℕ) (user rest : Str)
    → Refuses (λ c. c == d) user
    → split_once d (user ++ d ∷ rest) ≡ some (user, rest)
unfolding split_once
split_once-append d [] rest r = ground arith
split_once-append d (c ∷ user) rest (first, r) = ground (arith, split_once-append d user rest r)

-- "!ping" in two parts: the last code point is refused by every trim.
abbrev pin : Str
pin = 33 ∷ 112 ∷ 105 ∷ 110 ∷ []

-- Trimming by one predicate leaves what another takes, before it.
trim_end-Takes_append :
    (p q : ℕ → Bool) (xs ys : Str) → Takes q xs → Takes p ys → Takes q (trim_end p (xs ++ ys))
unfolding trim_end
trim_end-Takes_append p q [] ys t u = subst (Takes q) (sym (trim_end-Takes p ys u)) tt
trim_end-Takes_append p q (x ∷ xs) ys (first, t) u =
    go (trim_end p (xs ++ ys)) refl (trim_end-Takes_append p q xs ys t u)
  where
    go :
        (zs : Str) → trim_end p (xs ++ ys) ≡ zs → Takes q zs → Takes q (trim_end p (x ∷ (xs ++ ys)))
    go [] e v = elim (Bool-cases (p x)) [
      | inl taken ↦ subst (Takes q) (gone taken) tt
      | inr refused ↦ subst (Takes q) (kept refused) (first, tt)
    ]
      where
        gone : p x ≡ true → [] ≡ trim_end p (x ∷ (xs ++ ys))
        gone taken = ground arith

        kept : p x ≡ false → x ∷ [] ≡ trim_end p (x ∷ (xs ++ ys))
        kept refused = ground arith
    go (z ∷ zs) e v = subst (Takes q) longer (first, v)
      where
        longer : x ∷ z ∷ zs ≡ trim_end p (x ∷ (xs ++ ys))
        longer = ground arith

zeros-Takes : (n : ℕ) → Takes (λ c. c == 0) (replicate n 0)
zeros-Takes zero = tt
zeros-Takes (suc n) = (refl, zeros-Takes n)

-- Both trims of the text, up to a code point that neither takes.
trim_both :
    (xs : Str) (c : ℕ) (after : Str) (n : ℕ)
    → (c == 0) ≡ false
    → is_whitespace c ≡ false
    → Takes is_whitespace after
    → trim_end is_whitespace (trim_end (λ c. c == 0) (xs ++ c ∷ (after ++ replicate n 0)))
      ≡ xs ++ c ∷ []
trim_both xs c after n h k a =
    ap (trim_end is_whitespace) (trim_end-append (λ c. c == 0) xs c (after ++ replicate n 0) h)
    ∙ trim_end-append is_whitespace xs c _ k
    ∙ ap (λ l. xs ++ c ∷ l)
        (trim_end-Takes is_whitespace _ (
          trim_end-Takes_append (λ c. c == 0) is_whitespace after (replicate n 0) a
            (zeros-Takes n)))

split_last_part :
    (l after z : Str) → l ++ codes "!ping" ++ after ++ z ≡ (l ++ pin) ++ 103 ∷ (after ++ z)
split_last_part l after z =
    append_assoc (l ++ codes "!ping") after z
    ∙ ap (λ x. x ++ (after ++ z)) (sym (append_assoc l pin (103 ∷ [])))
    ∙ append_assoc (l ++ pin) (103 ∷ []) (after ++ z)

trim_msg :
    (before : Str) → Takes is_whitespace before → trim (before ++ codes "!ping") ≡ codes "!ping"
unfolding is_whitespace
trim_msg before b =
    ap (trim_start is_whitespace) (
      ap (trim_end is_whitespace) (sym (append_assoc before pin (103 ∷ [])))
      ∙ trim_end-append is_whitespace (before ++ pin) 103 [] refl
      ∙ ap (λ l. (before ++ pin) ++ 103 ∷ l) (trim_end-Takes is_whitespace [] tt)
      ∙ append_assoc before pin (103 ∷ []))
    ∙ trim_start-append is_whitespace before (codes "!ping") b
    ∙ trim_start-first is_whitespace 33 _ refl

of_parts-ping :
    (user msg : Str) → trim msg ≡ codes "!ping" → of_parts (some (user, msg)) ≡ some user
unfolding of_parts bytes_eq
of_parts-ping user msg h = rw h refl

ping_of-split :
    (text user msg : Str)
    → split_once 58 (trim (trim_end (λ c. c == 0) text)) ≡ some (user, msg)
    → trim msg ≡ codes "!ping"
    → ping_of text ≡ some user
unfolding ping_of
ping_of-split text user msg h k = ap of_parts h ∙ of_parts-ping user msg k

-- A text of a name without a colon and without white space in front, a colon, "!ping" with any white
-- space in front and behind, and any number of zeros at the end, is a ping of that name.
pub ping_of-name :
    (c : ℕ) (name before after : Str) (n : ℕ)
    → is_whitespace c ≡ false
    → Refuses (λ x. x == 58) (c ∷ name)
    → Takes is_whitespace before
    → Takes is_whitespace after
    → ping_of ((c ∷ name ++ 58 ∷ before) ++ codes "!ping" ++ after ++ replicate n 0)
      ≡ some (c ∷ name)
unfolding is_whitespace
ping_of-name c name before after n first no_colon b a =
    ping_of-split _ (c ∷ name) (before ++ codes "!ping")
      (ap (split_once 58) trimmed
        ∙ ap (split_once 58) (append_assoc (c ∷ name) (58 ∷ before) (codes "!ping"))
        ∙ split_once-append 58 (c ∷ name) (before ++ codes "!ping") no_colon)
      (trim_msg before b)
  where
    l : Str
    l = c ∷ name ++ 58 ∷ before

    trimmed :
        trim (trim_end (λ c. c == 0) (l ++ codes "!ping" ++ after ++ replicate n 0))
        ≡ l ++ codes "!ping"
    trimmed =
        ap (λ x. trim (trim_end (λ c. c == 0) x)) (split_last_part l after (replicate n 0))
        ∙ ap (trim_start is_whitespace) (trim_both (l ++ pin) 103 after n refl refl a)
        ∙ ap (trim_start is_whitespace) (append_assoc l pin (103 ∷ []))
        ∙ trim_start-first is_whitespace c _ first
