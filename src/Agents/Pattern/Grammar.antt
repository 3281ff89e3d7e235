-- ===== src/Agents/Pattern/Grammar.antt =====
-- The identifier automaton against the expression [a-z][a-z0-9]*(?:[._-][a-z0-9]+)*.
use work_assistant_agent.Prelude.{
  ℕ, ◌≡◌, ◌↔◌, refl, String, true, false, List, [], ◌∷◌, arith, Bool-cases, inl, inr,
}
use work_assistant_agent.Prelude.Names.{codes}
use work_assistant_agent.Agents.Pattern.{
  is_lower, is_word, is_separator, first, word, gap, id_run, is_identifier,
}

-- What may follow a character of a word: characters of the word, and a separator with at least one
-- character behind it.
pub data Tail : List ℕ → Type 0 where
  stop : Tail []
  letter : (c : ℕ) {cs : List ℕ} → is_word c ≡ true → Tail cs → Tail (c ∷ cs)
  joined :
      (c d : ℕ) {cs : List ℕ}
      → is_separator c ≡ true
      → is_word d ≡ true
      → Tail cs
      → Tail (c ∷ d ∷ cs)

pub data Identifier : List ℕ → Type 0 where
  starts : (c : ℕ) {cs : List ℕ} → is_lower c ≡ true → Tail cs → Identifier (c ∷ cs)

mutual
  unfolding id_run

  word_sound : (cs : List ℕ) → id_run word cs ≡ true → Tail cs
  word_sound [] h = stop
  word_sound (c ∷ cs) h = elim (Bool-cases (is_word c)) [
    | inl w ↦ letter c w (word_sound cs (ground arith))
    | inr n ↦ gap_sound c cs (ground arith) (ground arith)
  ]

  gap_sound : (c : ℕ) (cs : List ℕ) → is_separator c ≡ true → id_run gap cs ≡ true → Tail (c ∷ cs)
  gap_sound c [] s h = cc
  gap_sound c (d ∷ cs) s h = joined c d s (ground arith) (word_sound cs (ground arith))

separator_no_word : (c : ℕ) → is_separator c ≡ true → is_word c ≡ false
separator_no_word c h = ground arith

word_complete : {cs : List ℕ} → Tail cs → id_run word cs ≡ true
unfolding id_run
word_complete stop = refl
word_complete (letter c w t) = ground (arith, word_complete t)
word_complete (joined c d s w t) = ground (arith, word_complete t, separator_no_word c)

Identifier-sound : (cs : List ℕ) → id_run first cs ≡ true → Identifier cs
unfolding id_run
Identifier-sound [] h = cc
Identifier-sound (c ∷ cs) h = starts c (ground arith) (word_sound cs (ground arith))

Identifier-complete : {cs : List ℕ} → Identifier cs → id_run first cs ≡ true
unfolding id_run
Identifier-complete (starts c l t) = ground (arith, word_complete t)

-- The automaton accepts exactly the texts of the expression: a lower-case letter, then letters and
-- digits, with single separators that letters or digits follow.
pub is_identifier_iff : (s : String) → (is_identifier s ≡ true) ↔ Identifier (codes s)
unfolding is_identifier
is_identifier_iff s = (Identifier-sound (codes s), Identifier-complete)
