-- ===== src/Http/Scanner.antt =====
-- `lineScanner` in core/internal/api/handlers.go, which splits what a reader returns into lines. A text is a list of
-- bytes; the reader returns chunks and then an error, with some bytes or none, and after that none.
use llm_mcp.Prelude.{ℕ, zero, suc, Option, none, some, List, [], ◌∷◌, ◌++◌, eqb, if◌then◌else◌}

abbrev pub Bytes : Type 0
Bytes = List ℕ

-- `buf`, and what is still to be read: the chunks, and the bytes that come with the error.
pub record State : Type 0 where
  pub buf : Bytes
  pub chunks : List Bytes
  pub last : Bytes

-- `s.buf[:idx]` and `s.buf[idx+1:]` for the first newline.
abbrev pub cut_line : Bytes → Option (Bytes × Bytes)
cut_line [] = none
cut_line (b ∷ bs) =
    let rest = cut_line bs in
    if eqb b 10 then some ([], bs) else elim rest [ none ↦ none | some lr ↦ some (b ∷ lr.0, lr.1) ]

-- `strings.TrimRight(s.line, "\r")`
abbrev pub trim_cr : Bytes → Bytes
trim_cr [] = []
trim_cr (b ∷ bs) = keep b (trim_cr bs)
  where
    keep : ℕ → Bytes → Bytes
    keep b [] = if eqb b 13 then [] else b ∷ []
    keep b (c ∷ cs) = b ∷ c ∷ cs

-- At the error, what is left is the last line.
abbrev pub at_error : Bytes → Option (Bytes × State)
at_error [] = none
at_error (b ∷ bs) = some (b ∷ bs, record { buf = []; chunks = []; last = [] })

abbrev pub next_line : List Bytes → Bytes → Bytes × Bytes → Option (Bytes × State)
next_line chunks last lr = some (trim_cr lr.0, record { buf = lr.1; chunks = chunks; last = last })

-- `Scan`: the line and the new state, or `false`.
unfoldable pub scan : Bytes → List Bytes → Bytes → Option (Bytes × State)
scan buf [] last = elim (cut_line buf) [
  | none ↦ at_error (buf ++ last)
  | some lr ↦ next_line [] last lr
]
scan buf (c ∷ cs) last =
    let more = scan (buf ++ c) cs last in
    elim (cut_line buf) [ none ↦ more | some lr ↦ next_line (c ∷ cs) last lr ]

-- The loop `for scanner.Scan()` of the clients, for at most `fuel` lines.
unfoldable pub scan_lines : ℕ → State → List Bytes
unfolding scan
scan_lines zero s = []
scan_lines (suc fuel) s = elim (scan s.buf s.chunks s.last) [
  | none ↦ []
  | some ls ↦ ls.0 ∷ scan_lines fuel ls.1
]
