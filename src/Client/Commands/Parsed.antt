-- ===== src/Client/Commands/Parsed.antt =====
-- A command that is typed with blanks around its words is the command meant.
use sis_op.Base.{
  ℕ, ◌≡◌, refl, sym, ap, ◌∙◌, true, false, ◌||◌, [], ◌∷◌, ◌++◌, All, ◌==◌, Bool-cases, inl, inr,
  append_assoc,
}
use sis_op.Base.Keys.{Bytes}
use sis_op.Client.Commands.{
  is_blank, trim_left, unless_blank, trim_right, trim, cut_word, select, run_command,
}

abbrev pub Blank : Bytes → Type 0
Blank = All (λ c. is_blank c ≡ true)

-- A text with no blank at either end.
pub record IsTrimmed (text : Bytes) : Type 0 where
  pub left : trim_left text ≡ text
  pub right : trim_right text ≡ text

trim_left-Blank : (blanks line : Bytes) → Blank blanks → trim_left (blanks ++ line) ≡ trim_left line
unfolding trim_left
trim_left-Blank [] line b = refl
trim_left-Blank (c ∷ blanks) line b = rw (b.0) (trim_left-Blank blanks line b.1)

trim_right-all : (blanks : Bytes) → Blank blanks → trim_right blanks ≡ []
unfolding trim_right
trim_right-all [] b = refl
trim_right-all (c ∷ blanks) b = rw (trim_right-all blanks b.1) (rw (b.0) refl)

trim_right-Blank :
    (line blanks : Bytes) → Blank blanks → trim_right (line ++ blanks) ≡ trim_right line
unfolding trim_right
trim_right-Blank [] blanks b = trim_right-all blanks b
trim_right-Blank (c ∷ line) blanks b = ap (unless_blank c) (trim_right-Blank line blanks b)

-- Nothing is cut off in front of a text that ends without a blank.
trim_right-behind :
    (front : Bytes) (c : ℕ) (cs : Bytes)
    → trim_right (c ∷ cs) ≡ c ∷ cs
    → trim_right (front ++ (c ∷ cs)) ≡ front ++ (c ∷ cs)
unfolding trim_right
trim_right-behind [] c cs h = h
trim_right-behind (f ∷ []) c cs h = ap (unless_blank f) h
trim_right-behind (f ∷ g ∷ front) c cs h =
    ap (unless_blank f) (trim_right-behind (g ∷ front) c cs h)

-- A text without a blank.
abbrev pub Solid : Bytes → Type 0
Solid = All (λ c. is_blank c ≡ false)

separator-blank : (c : ℕ) → is_blank c ≡ false → (c == 32 || c == 9) ≡ false
unfolding is_blank
separator-blank c h = elim (Bool-cases (c == 32)) [
  | inl e ↦ cc (rw (e, is_blank) at h)
  | inr e ↦ elim (Bool-cases (c == 9)) [
    | inl t ↦ cc (rw (e, t, is_blank) at h)
    | inr t ↦ rw (e, t) refl
  ]
]

cut_word-word :
    (word rest : Bytes) → Solid word → cut_word (word ++ (32 ∷ rest)) ≡ (word, 32 ∷ rest)
unfolding cut_word
cut_word-word [] rest solid = refl
cut_word-word (c ∷ word) rest solid =
    rw (separator-blank c solid.0) (rw (cut_word-word word rest solid.1) refl)

trim_left-solid : (c : ℕ) (cs : Bytes) → is_blank c ≡ false → trim_left (c ∷ cs) ≡ c ∷ cs
unfolding trim_left
trim_left-solid c cs h = rw h refl

-- A word without blanks and an argument that neither starts nor ends with one, with a blank and then any
-- blanks between them, before and behind them: run_command takes the word as the command and the argument as it is.
pub run_command-words :
    (before : Bytes) (c : ℕ) (word gap : Bytes) (a : ℕ) (argument after : Bytes)
    → Blank before
    → Solid (c ∷ word)
    → Blank gap
    → IsTrimmed (a ∷ argument)
    → Blank after
    → run_command (before ++ (((c ∷ word) ++ (32 ∷ (gap ++ (a ∷ argument)))) ++ after))
      ≡ select (c ∷ word) (a ∷ argument)
unfolding run_command trim is_blank
run_command-words before c word gap a argument after b_before solid b_gap trimmed b_after =
    let line = (c ∷ word) ++ (32 ∷ (gap ++ (a ∷ argument))) in
    let cut_left : trim_left (before ++ (line ++ after)) ≡ line ++ after =
      trim_left-Blank before (line ++ after) b_before ∙ trim_left-solid c _ solid.0 in
    let kept : trim_right line ≡ line =
      rw (sym (append_assoc (c ∷ word) (32 ∷ gap) (a ∷ argument)))
        (trim_right-behind ((c ∷ word) ++ (32 ∷ gap)) a argument trimmed.right) in
    let cut : trim (before ++ (line ++ after)) ≡ line =
      ap trim_right cut_left ∙ trim_right-Blank line after b_after ∙ kept in
    let cut_argument : trim (32 ∷ (gap ++ (a ∷ argument))) ≡ a ∷ argument =
      ap trim_right (trim_left-Blank (32 ∷ gap) (a ∷ argument) (refl, b_gap) ∙ trimmed.left)
      ∙ trimmed.right in
    rw cut (rw (cut_word-word (c ∷ word) _ solid, cut_argument) refl)
