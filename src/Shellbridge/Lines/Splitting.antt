-- ===== src/Shellbridge/Lines/Splitting.antt =====
-- The lines that `forwardLines` emits do not depend on how the stream is read.
use mathlib.Core.List.{append-nil, append_assoc}
use inferia_worker.Common.{
  ℕ, subst, ℕ_discrete, All-append, List, [], ◌∷◌, ◌++◌, ◌≡◌, refl, ap, sym, ◌∙◌, arith, All, ◌≢◌,
}
use inferia_worker.Shellbridge.Lines.{
  Bytes, newline, Reader, failing, reads, Cut, cut, take_in, flush, forward_lines,
}

-- The bytes of the whole stream.
abbrev pub bytes : Reader → Bytes
bytes (failing bs) = bs
bytes (reads bs rest) = bs ++ bytes rest

-- A text of lines, each with its end, and a rest without one.
abbrev pub unlines : List Bytes → Bytes → Bytes
unlines [] last = last
unlines (l ∷ ls) last = l ++ (newline ∷ unlines ls last)

abbrev pub IsLine : Bytes → Type 0
IsLine l = All (λ b. b ≢ newline) l

-- Bytes without a newline only make the line longer.
cut_line : (line xs ys : Bytes) → IsLine xs → cut line (xs ++ ys) ≡ cut (line ++ xs) ys
unfolding cut
cut_line line [] ys h = ap (λ l. cut l ys) (sym (append-nil line))
cut_line line (b ∷ xs) ys h =
    ground (arith, h.0, cut_line (line ++ (b ∷ [])) xs ys h.1, append_assoc line (b ∷ []) xs)

cut-append :
    (line xs ys : Bytes)
    → cut line (xs ++ ys) ≡ record {
      emitted = (cut line xs).emitted ++ (cut (cut line xs).partial ys).emitted;
      partial = (cut (cut line xs).partial ys).partial;
    }
unfolding cut
cut-append line [] ys = refl
cut-append line (b ∷ xs) ys =
    ground (arith, cut-append [] xs ys, cut-append (line ++ (b ∷ [])) xs ys)

cut-newline :
    (line : Bytes) (b : ℕ) (xs : Bytes)
    → b ≡ newline
    → cut line (b ∷ xs)
      ≡ record { emitted = line ∷ (cut [] xs).emitted; partial = (cut [] xs).partial }
unfolding cut
cut-newline line b xs e = ground (arith, e)

cut_other :
    (line : Bytes) (b : ℕ) (xs : Bytes)
    → b ≢ newline
    → cut line (b ∷ xs) ≡ cut (line ++ (b ∷ [])) xs
unfolding cut
cut_other line b xs n = ground (arith, n)

cut-IsLine : (line xs : Bytes) → IsLine line → IsLine (cut line xs).partial
unfolding cut
cut-IsLine line [] h = h
cut-IsLine line (b ∷ xs) h = elim (ℕ_discrete b newline) [
  | yes e ↦
      subst (λ (c : Cut). IsLine c.partial) (sym (cut-newline line b xs e)) (cut-IsLine [] xs tt)
  | no n ↦
      subst (λ (c : Cut). IsLine c.partial) (sym (cut_other line b xs n))
        (cut-IsLine (line ++ (b ∷ [])) xs (All-append (λ c. c ≢ newline) line (b ∷ []) h (n, tt)))
]

take_in-cut : (line xs : Bytes) → IsLine line → take_in line xs ≡ cut line xs
unfolding take_in
take_in-cut line [] h = refl
take_in-cut line (b ∷ xs) h = cut_line [] line (b ∷ xs) h

flush-cons : (line : Bytes) → line ≢ [] → flush line ≡ line ∷ []
unfolding flush
flush-cons [] n = absurd (n refl)
flush-cons (b ∷ bs) n = refl

abbrev all_lines : Cut → List Bytes
all_lines c = c.emitted ++ flush c.partial

forward_lines-cut :
    (line : Bytes) (r : Reader)
    → IsLine line
    → forward_lines line r ≡ all_lines (cut line (bytes r))
unfolding forward_lines
forward_lines-cut line (failing bs) h = ap all_lines (take_in-cut line bs h)
forward_lines-cut line (reads bs r) h =
    let at = cut line bs in
    let step = forward_lines-cut at.partial r (cut-IsLine line bs h) in
    let split : cut line (bs ++ bytes r) ≡ _ = cut-append line bs (bytes r) in
    rw (take_in-cut line bs h, step, split) (sym (append_assoc at.emitted _ _))

cut-unlines :
    (ls : List Bytes) (last : Bytes)
    → All IsLine ls
    → IsLine last
    → cut [] (unlines ls last) ≡ record { emitted = ls; partial = last }
unfolding cut
cut-unlines [] last h hl =
    subst (λ bs. cut [] bs ≡ cut last []) (append-nil last) (cut_line [] last [] hl)
cut-unlines (l ∷ ls) last h hl = cut_line [] l _ h.0 ∙ cc (cut-unlines ls last h.1 hl)

-- Lines without a newline in them, each written with a newline, and a rest without one, come back
-- as they were, however the reader cuts the stream into answers: the lines in order, and the rest
-- after them when it is not empty, and nothing after them when it is.
pub forward_lines-unlines :
    (ls : List Bytes) (last : Bytes) (r : Reader)
    → All IsLine ls
    → IsLine last
    → bytes r ≡ unlines ls last
    → (last ≢ [] → forward_lines [] r ≡ ls ++ last ∷ []) × (last ≡ [] → forward_lines [] r ≡ ls)
unfolding flush
forward_lines-unlines ls last r h hl e =
    let all : forward_lines [] r ≡ ls ++ flush last =
      forward_lines-cut [] r tt ∙ ap all_lines (ap (cut []) e ∙ cut-unlines ls last h hl) in
    (
      λ n. all ∙ ap (λ l. ls ++ l) (flush-cons last n),
      λ z. all ∙ ap (λ l. ls ++ flush l) z ∙ nothing_more,
    )
  where
    nothing_more : ls ++ flush [] ≡ ls
    nothing_more = append-nil ls
