-- ===== src/PersistNode/Parse/Tokens.antt =====
-- How one word of the text is read.
use omni_events.Prelude.{ℕ, suc, ◌≡◌, true, false, some, [], ◌∷◌, ◌++◌, ◌==◌}
use omni_events.Prelude.Text.{Str}
use omni_events.PersistNode.Text.{is_space, skip_space, take_word, word_at, read_word, readtoken}

abbrev pub Blank : Str → Type 0
Blank [] = Unit {0}
Blank (c ∷ s) = (is_space c ≡ true) × Blank s

abbrev pub Spaceless : Str → Type 0
Spaceless [] = Unit {0}
Spaceless (c ∷ s) = (is_space c ≡ false) × Spaceless s

pub Spaceless-append : (s t : Str) → Spaceless s → Spaceless t → Spaceless (s ++ t)
Spaceless-append [] t h k = k
Spaceless-append (c ∷ s) t h k = (h.0, Spaceless-append s t h.1 k)

take_word-Spaceless :
    (w : Str) (c : ℕ) (r : Str)
    → Spaceless w
    → is_space c ≡ true
    → take_word (w ++ c ∷ r) ≡ (w, c ∷ r)
unfolding take_word
take_word-Spaceless [] c r h k = rw k
take_word-Spaceless (d ∷ w) c r h k = rw h.0 (rw (take_word-Spaceless w c r h.1 k))

skip_space-Blank :
    (lead : Str) (d : ℕ) (s : Str)
    → Blank lead
    → is_space d ≡ false
    → skip_space (lead ++ d ∷ s) ≡ d ∷ s
unfolding skip_space
skip_space-Blank [] d s h k = rw k
skip_space-Blank (c ∷ lead) d s h k = rw h.0 (skip_space-Blank lead d s h.1 k)

read_word-word :
    (lead : Str) (d : ℕ) (w : Str) (c : ℕ) (r tok : Str)
    → Blank lead
    → Spaceless (d ∷ w)
    → is_space c ≡ true
    → read_word (record { rest = lead ++ ((d ∷ w) ++ c ∷ r); good = true }) tok
      ≡ record { stream = record { rest = c ∷ r; good = true }; tok = d ∷ w }
unfolding read_word
read_word-word lead d w c r tok h k e =
    rw (skip_space-Blank lead d (w ++ c ∷ r) h k.0)
      (rw (take_word-Spaceless (d ∷ w) c r k e, word_at))

-- A word that begins no comment.
abbrev pub IsWord : Str → Type 0
IsWord [] = ⊥
IsWord (d ∷ w) = Spaceless (d ∷ w) × ((d == b'#') ≡ false)

-- A word behind white space is read whole, up to the white space behind it.
pub readtoken-word :
    (fuel : ℕ) (lead w : Str) (c : ℕ) (r tok : Str)
    → Blank lead
    → IsWord w
    → is_space c ≡ true
    → readtoken (suc fuel) (record { rest = lead ++ (w ++ c ∷ r); good = true }) tok
      ≡ some (true, record { stream = record { rest = c ∷ r; good = true }; tok = w })
unfolding readtoken
readtoken-word fuel lead [] c r tok h k e = absurd k
readtoken-word fuel lead (d ∷ w) c r tok h k e =
    rw (read_word-word lead d w c r tok h k.0 e) (rw k.1)
