-- ===== src/Http/Lines.antt =====
-- The lines of a stream do not depend on its chunks.
use llm_mcp.Prelude.{
  append_nil, append_assoc, ℕ, zero, suc, ◌<◌, ◌≡◌, inl, inr, refl, ap, sym, subst, ◌∙◌, Option,
  none, some, List, [], ◌∷◌, ◌++◌, eqb, length, arith, if◌then◌else◌, Bool-cases, Option-cases,
}
use llm_mcp.Http.Scanner.{Bytes, State, cut_line, trim_cr, at_error, next_line, scan, scan_lines}

abbrev pub join_all : List Bytes → Bytes
join_all [] = []
join_all (c ∷ cs) = c ++ join_all cs

-- `strings.Split` at the newlines.
abbrev pub grow : ℕ → List Bytes → List Bytes
grow b [] = (b ∷ []) ∷ []
grow b (p ∷ ps) = (b ∷ p) ∷ ps

abbrev pub split_lines : Bytes → List Bytes
split_lines [] = [] ∷ []
split_lines (b ∷ bs) = let parts = split_lines bs in if eqb b 10 then [] ∷ parts else grow b parts

-- What stands before a newline, without the carriage returns at its end, and what stands behind the last
-- one, when it is not empty.
abbrev pub tidy : List Bytes → List Bytes
tidy [] = []
tidy ([] ∷ []) = []
tidy ((b ∷ bs) ∷ []) = (b ∷ bs) ∷ []
tidy (l ∷ m ∷ ls) = trim_cr l ∷ tidy (m ∷ ls)

abbrev pub lines_of : Bytes → List Bytes
lines_of text = tidy (split_lines text)

split-cut_line :
    (buf x l r : Bytes)
    → cut_line buf ≡ some (l, r)
    → split_lines (buf ++ x) ≡ l ∷ split_lines (r ++ x)
split-cut_line [] x l r h = absurd (cc)
split-cut_line (b ∷ bs) x l r h = elim (Bool-cases (eqb b 10)) [
  | inl e ↦
      let k : some ([], bs) ≡ some (l, r) = rw e at h in
      let q : [] ≡ l = ground arith in let q' : bs ≡ r = ground arith in rw (e, ← q, ← q') refl
  | inr e ↦ elim (Option-cases (cut_line bs)) [
    | inl f ↦ let k : none ≡ some (l, r) = rw (e, f) at h in absurd (cc)
    | inr (lr, f) ↦
        let k : some (b ∷ lr.0, lr.1) ≡ some (l, r) = rw (e, f) at h in
        let q : b ∷ lr.0 ≡ l = ground arith in
        let q' : lr.1 ≡ r = ground arith in rw (e, ← q, ← q', split-cut_line bs x lr.0 lr.1 f) refl
  ]
]

split-whole : (buf : Bytes) → cut_line buf ≡ none → split_lines buf ≡ buf ∷ []
split-whole [] h = refl
split-whole (b ∷ bs) h = elim (Bool-cases (eqb b 10)) [
  | inl e ↦ let k : some ([], bs) ≡ none = rw e at h in absurd (cc)
  | inr e ↦ elim (Option-cases (cut_line bs)) [
    | inl f ↦ rw (e, split-whole bs f) refl
    | inr (lr, f) ↦ let k : some (b ∷ lr.0, lr.1) ≡ none = rw (e, f) at h in absurd (cc)
  ]
]

-- A text has a first line or last piece.
tidy-split_lines : (l text : Bytes) → tidy (l ∷ split_lines text) ≡ trim_cr l ∷ lines_of text
tidy-split_lines l text = with_head (split_lines text) (nonempty text)
  where
    nonempty : (text : Bytes) → (m : Bytes) × (ms : List Bytes) × (split_lines text ≡ m ∷ ms)
    nonempty [] = ([], [], refl)
    nonempty (b ∷ bs) = elim (Bool-cases (eqb b 10)) [
      | inl e ↦ ([], split_lines bs, rw e refl)
      | inr e ↦ let (m, ms, q) = nonempty bs in (b ∷ m, ms, rw (e, q) refl)
    ]

    with_head :
        (parts : List Bytes)
        → ((m : Bytes) × (ms : List Bytes) × (parts ≡ m ∷ ms))
        → tidy (l ∷ parts) ≡ trim_cr l ∷ tidy parts
    with_head parts (m, ms, q) = rw q refl

-- What is still to come out of a state.
abbrev pub rest_of : State → Bytes
rest_of s = s.buf ++ join_all s.chunks

-- What a scan makes of a text.
data Scans (text : Bytes) (x : Option (Bytes × State)) : Type 0 where
  over : x ≡ none → lines_of text ≡ [] → Scans text x
  one :
      (l : Bytes) (s : State)
      → x ≡ some (l, s)
      → lines_of text ≡ l ∷ lines_of (rest_of s)
      → s.last ≡ []
      → length (rest_of s) < length text
      → Scans text x

shorter : (buf x l r : Bytes) → cut_line buf ≡ some (l, r) → length (r ++ x) < length (buf ++ x)
shorter [] x l r h = absurd (cc)
shorter (b ∷ bs) x l r h = elim (Bool-cases (eqb b 10)) [
  | inl e ↦
      let k : some ([], bs) ≡ some (l, r) = rw e at h in
      let q : bs ≡ r = ground arith in rw (← q) (omega arith)
  | inr e ↦ elim (Option-cases (cut_line bs)) [
    | inl f ↦ let k : none ≡ some (l, r) = rw (e, f) at h in absurd (cc)
    | inr (lr, f) ↦
        let k : some (b ∷ lr.0, lr.1) ≡ some (l, r) = rw (e, f) at h in
        let q : lr.1 ≡ r = ground arith in rw (← q) (omega (arith, shorter bs x lr.0 lr.1 f))
  ]
]

cut_one :
    (buf : Bytes) (chunks : List Bytes) (lr : Bytes × Bytes)
    → cut_line buf ≡ some lr
    → Scans (buf ++ join_all chunks) (next_line chunks [] lr)
cut_one buf chunks lr e =
    let x = join_all chunks in
    one (trim_cr lr.0) (record { buf = lr.1; chunks = chunks; last = [] }) refl
      (ap tidy (split-cut_line buf x lr.0 lr.1 e) ∙ tidy-split_lines lr.0 (lr.1 ++ x)) refl
      (shorter buf x lr.0 lr.1 e)

whole_one : (buf : Bytes) → cut_line buf ≡ none → Scans buf (at_error buf)
whole_one [] e = over refl refl
whole_one (b ∷ bs) e =
    one (b ∷ bs) (record { buf = []; chunks = []; last = [] }) refl
      (ap tidy (split-whole (b ∷ bs) e)) refl (omega arith)

last_cut :
    (buf : Bytes) (o : Option (Bytes × Bytes))
    → cut_line buf ≡ o
    → Scans (buf ++ []) (elim o [ none ↦ at_error (buf ++ []) | some lr ↦ next_line [] [] lr ])
last_cut buf none e = subst (λ t. Scans t (at_error t)) (sym (append_nil buf)) (whole_one buf e)
last_cut buf (some lr) e = cut_one buf [] lr e

more_cut :
    (buf c : Bytes) (cs : List Bytes) (more : Option (Bytes × State)) (o : Option (Bytes × Bytes))
    → cut_line buf ≡ o
    → Scans ((buf ++ c) ++ join_all cs) more
    → Scans
        (buf ++ (c ++ join_all cs))
        (elim o [ none ↦ more | some lr ↦ next_line (c ∷ cs) [] lr ])
more_cut buf c cs more none e h = subst (λ t. Scans t more) (append_assoc buf c (join_all cs)) h
more_cut buf c cs more (some lr) e h = cut_one buf (c ∷ cs) lr e

scan-Scans :
    (buf : Bytes) (chunks : List Bytes) → Scans (buf ++ join_all chunks) (scan buf chunks [])
unfolding scan
scan-Scans buf [] = last_cut buf (cut_line buf) refl
scan-Scans buf (c ∷ cs) =
    more_cut buf c cs (scan (buf ++ c) cs []) (cut_line buf) refl (scan-Scans (buf ++ c) cs)

scans_all :
    (fuel : ℕ) (s : State)
    → s.last ≡ []
    → length (rest_of s) < fuel
    → scan_lines fuel s ≡ lines_of (rest_of s)
unfolding scan_lines
scans_all zero s h l = absurd (omega arith)
scans_all (suc fuel) s h l =
    subst
      (λ z.
        (elim (scan s.buf s.chunks z) [ none ↦ [] | some ls ↦ ls.0 ∷ scan_lines fuel ls.1 ])
        ≡ lines_of (rest_of s))
      (sym h)
      (step (λ t z d. scans_all fuel t z d) (scan s.buf s.chunks []) (scan-Scans s.buf s.chunks))
  where
    step :
        ((t : State)
          → t.last ≡ []
          → length (rest_of t) < fuel
          → scan_lines fuel t ≡ lines_of (rest_of t))
        → (x : Option (Bytes × State)) → Scans (rest_of s) x
        → (elim x [ none ↦ [] | some ls ↦ ls.0 ∷ scan_lines fuel ls.1 ]) ≡ lines_of (rest_of s)
    step ih x (over e k) = rw e (sym k)
    step ih x (one m t e k z d) = rw e (rw (ih t z (omega arith)) (sym k))

-- However the reader cuts a text into chunks, when no bytes come with its error, the scanner returns
-- exactly the lines of the text, in their order, and a last piece without a newline that is not empty; as
-- many calls as the text has bytes, and one more, are enough.
pub scan_lines-lines_of :
    (chunks : List Bytes)
    → scan_lines (suc (length (join_all chunks))) (record { buf = []; chunks = chunks; last = [] })
      ≡ lines_of (join_all chunks)
unfolding scan_lines
scan_lines-lines_of chunks =
    scans_all (suc (length (join_all chunks))) (record { buf = []; chunks = chunks; last = [] })
      refl (omega arith)
