-- ===== src/Repository/Creation/Titles.antt =====
-- `_initial_thread_title` of backend/src/work_assistant/repository.py. Which characters have a
-- Unicode category of control characters is a parameter.
use Prim.Native.Char.{code}
use work_assistant_agent.Prelude.{
  ℕ, zero, suc, ◌+◌, ◌≤◌, ◌≡◌, Bool, true, false, ◌&&◌, ◌||◌, not, String, arith, ltb,
  if◌then◌else◌,
}
use work_assistant_agent.Prelude.Names.{is_space, take_text, text_length}

-- `" ".join(s.split())`, in one pass that knows whether a word and whether white space came before.
unfoldable pub collapse : Bool → Bool → String → String
unfolding is_space
collapse has_word is_due String.[] = ""
collapse has_word is_due (String.◌∷◌ c s) = elim (is_space (code c)) [
  | true ↦ collapse has_word true s
  | false ↦ elim (has_word && is_due) [
    | true ↦ String.◌∷◌ " " (String.◌∷◌ c (collapse true false s))
    | false ↦ String.◌∷◌ c (collapse true false s)
  ]
]

unfoldable pub append_text : String → String → String
append_text String.[] t = t
append_text (String.◌∷◌ c s) t = String.◌∷◌ c (append_text s t)

-- `collapsed or default`
abbrev text_or : String → String → String
text_or String.[] default = default
text_or (String.◌∷◌ c s) default = String.◌∷◌ c s

module _ (is_control : ℕ → Bool) where
  -- The characters that are no control characters, or white space.
  unfoldable pub visible : String → String
  unfolding is_space
  visible String.[] = ""
  visible (String.◌∷◌ c s) = elim (not (is_control (code c)) || is_space (code c)) [
    | true ↦ String.◌∷◌ c (visible s)
    | false ↦ visible s
  ]

  unfoldable pub initial_thread_title : String → String
  unfolding visible collapse append_text take_text
  initial_thread_title message =
      let collapsed = text_or (collapse false false (visible message)) "New conversation" in
      if ltb 28 (text_length collapsed) then append_text (take_text 28 collapsed) "…" else collapsed

text_length-append : (s t : String) → text_length (append_text s t) ≡ text_length s + text_length t
unfolding append_text
text_length-append String.[] t = omega arith
text_length-append (String.◌∷◌ c s) t = omega (arith, text_length-append s t)

text_length-take : (n : ℕ) (s : String) → text_length (take_text n s) ≤ n
unfolding take_text
text_length-take zero s = omega arith
text_length-take (suc n) String.[] = omega arith
text_length-take (suc n) (String.◌∷◌ c s) = omega (arith, text_length-take n s)

text_or_nonempty : (s : String) → 1 ≤ text_length (text_or s "New conversation")
text_or_nonempty String.[] = omega arith
text_or_nonempty (String.◌∷◌ c s) = omega arith

-- Whatever the first message is, and even if it is blank or has control characters only, the title
-- of its thread has at least one and at most 29 characters.
pub initial_thread_title-length :
    (is_control : ℕ → Bool) (message : String)
    → (1 ≤ text_length (initial_thread_title is_control message))
      × (text_length (initial_thread_title is_control message) ≤ 29)
unfolding initial_thread_title
initial_thread_title-length is_control message =
    let s = collapse false false (visible is_control message) in
    let most = text_length-take 28 (text_or s "New conversation") in
    let sum = text_length-append (take_text 28 (text_or s "New conversation")) "…" in
    ground (arith, most, sum, text_or_nonempty s)
