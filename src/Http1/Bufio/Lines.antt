-- ===== src/Http1/Bufio/Lines.antt =====
-- What `ReadSlice('\n')` of a `bufio.Reader` finds in all bytes that are still to come.
use req.Base.{
  ℕ, ◌+◌, ◌-◌, ◌≤◌, ◌<◌, ◌≡◌, refl, sym, ap, ◌∙◌, subst, leb, ◌==◌, Bool-cases, Option,
  Option-cases, none, some, inl, inr, List, [], ◌∷◌, ◌++◌, append_assoc, append-nil, length, take,
  drop, arith, length-append, length-take, length-drop, take-append-drop, ◌⊎◌,
}
use req.Base.Bytes.{Bytes}
use req.Http1.Bufio.{
  remaining, concat, IsReader, cut_line, in_buffer, Slice, slice, no_slice, read_slice, buffer_full,
  nature, BufReader, Error,
}

-- The line at the front of `all`, or why there is none within the buffer.
abbrev pub Sliced : ℕ × Error → Bytes → Slice → Type 0
Sliced src all (slice line r) =
    (cut_line all ≡ some (line, remaining r))
    × (length line ≤ src.0)
    × IsReader r
    × (nature r ≡ src)
Sliced src all (no_slice e r) =
    (((e ≡ src.1) × (cut_line all ≡ none) × (length all < src.0))
      ⊎ ((e ≡ buffer_full)
          × ((line rest : Bytes) → cut_line all ≡ some (line, rest) → src.0 < length line)
          × (src.0 ≤ length all)))
    × IsReader r
    × (nature r ≡ src)

-- The line and what follows it are the whole.
pub cut_line_parts :
    (s line rest : Bytes) → cut_line s ≡ some (line, rest) → (s ≡ line ++ rest) × (0 < length line)
unfolding cut_line
cut_line_parts [] line rest e = absurd (ground arith)
cut_line_parts (b ∷ s) line rest e = elim (Bool-cases (b == 10)) [
  | inl y ↦ ground arith
  | inr n ↦ elim (Option-cases (cut_line s)) [
    | inl nothing ↦ absurd (ground arith)
    | inr ((l, r), found) ↦ let (same, pos_l) = cut_line_parts s l r found in ground arith
  ]
]

cut_line-append :
    (s t line rest : Bytes)
    → cut_line s ≡ some (line, rest)
    → (cut_line (s ++ t) ≡ some (line, rest ++ t)) × (length line + length rest ≡ length s)
unfolding cut_line
cut_line-append [] t line rest e = absurd (ground arith)
cut_line-append (b ∷ s) t line rest e = elim (Bool-cases (b == 10)) [
  | inl y ↦ ground arith
  | inr n ↦ elim (Option-cases (cut_line s)) [
    | inl nothing ↦ absurd (ground arith)
    | inr ((l, r), found) ↦ let (same, total) = cut_line-append s t l r found in ground arith
  ]
]

-- No line ends within `s`.
cut_line-beyond :
    (s t line rest : Bytes)
    → cut_line s ≡ none
    → cut_line (s ++ t) ≡ some (line, rest)
    → length s < length line
unfolding cut_line
cut_line-beyond [] t line rest h e = (cut_line_parts t line rest e).1
cut_line-beyond (b ∷ s) t line rest h e = elim (Bool-cases (b == 10)) [
  | inl y ↦ absurd (ground arith)
  | inr n ↦ elim (Option-cases (cut_line s)) [
    | inl nothing ↦ elim (Option-cases (cut_line (s ++ t))) [
      | inl nowhere ↦ absurd (ground arith)
      | inr ((l, r), found) ↦ let more = cut_line-beyond s t l r nothing found in ground arith
    ]
    | inr ((l, r), found) ↦ absurd (ground arith)
  ]
]

in_buffer-Sliced :
    (r : BufReader) (buf : Bytes) (ps : List Bytes) (o : Option (Bytes × Bytes)) (next : Slice)
    → cut_line buf ≡ o
    → IsReader (record r { buf = buf; source = ps })
    → (cut_line buf ≡ none → length buf < r.cap → Sliced (nature r) (buf ++ concat ps) next)
    → Sliced (nature r) (buf ++ concat ps) (in_buffer r buf ps o next)
unfolding in_buffer
in_buffer-Sliced r buf ps (some (line, rest)) next e h step =
    let (found, total) = cut_line-append buf (concat ps) line rest e in
    (found, omega (arith, h.1), (h.0, omega (arith, h.1), h.2), refl)
in_buffer-Sliced r buf ps none next e h step = elim (Bool-cases (leb r.cap (length buf))) [
  | inl y ↦
      let all : r.cap ≤ length buf = ground arith in
      rw y (
        inr (
          refl,
          λ line rest found. omega (arith, cut_line-beyond buf (concat ps) line rest e found),
          omega (arith, length-append buf (concat ps)),
        ),
        (h.0, omega arith, h.2),
        refl,
      )
  | inr n ↦ rw n (step e (ground arith))
]

-- A buffer that a part of a piece has filled up.
filled_up :
    (r : BufReader) (buf p : Bytes) (ps : List Bytes)
    → IsReader (record r { buf = buf; source = p ∷ ps })
    → length buf < r.cap
    → r.cap - length buf < length p
    → let room = r.cap - length buf in
      Sliced (nature r) (buf ++ (p ++ concat ps)) (
        in_buffer r
          (buf ++ take room p)
          (drop room p ∷ ps)
          (cut_line (buf ++ take room p))
          (no_slice buffer_full (record r { buf = []; source = drop room p ∷ ps })))
filled_up r buf p ps h less less_room =
    let room = r.cap - length buf in
    let same : (buf ++ take room p) ++ (drop room p ++ concat ps) ≡ buf ++ (p ++ concat ps) =
      append_assoc buf (take room p) (drop room p ++ concat ps)
      ∙ ap (λ q. buf ++ q)
          (sym (append_assoc (take room p) (drop room p) (concat ps))
            ∙ ap (λ q. q ++ concat ps) (take-append-drop room p)) in
    let len : length (buf ++ take room p) ≡ r.cap =
      omega (arith, length-append buf (take room p), length-take room p) in
    let next = no_slice buffer_full (record r { buf = []; source = drop room p ∷ ps }) in
    subst
      (λ x.
        Sliced (nature r) x (
          in_buffer r (buf ++ take room p) (drop room p ∷ ps) (cut_line (buf ++ take room p)) next))
      same
      (in_buffer-Sliced r (buf ++ take room p) (drop room p ∷ ps) (cut_line (buf ++ take room p))
        next refl (h.0, omega (arith, len), (omega (arith, length-drop room p), h.2.1))
        (λ e short. absurd (omega (arith, len))))

pub read_slice-Sliced :
    (r : BufReader) (buf : Bytes) (ps : List Bytes)
    → IsReader (record r { buf = buf; source = ps })
    → Sliced (nature r) (buf ++ concat ps) (read_slice r buf ps)
unfolding read_slice
read_slice-Sliced r buf [] h = in_buffer-Sliced r buf [] (cut_line buf) _ refl h (λ e less.
    (inl (refl, rw (append-nil buf) e, rw (append-nil buf) less), (h.0, omega arith, tt), refl))
read_slice-Sliced r buf (p ∷ ps) h =
    in_buffer-Sliced r buf (p ∷ ps) (cut_line buf) _ refl h (λ e less.
      elim (Bool-cases (leb (length p) (r.cap - length buf))) [
        | inl y ↦
            let room : length p ≤ r.cap - length buf = ground arith in
            rw y (
              subst (λ x. Sliced (nature r) x (read_slice r (buf ++ p) ps))
                (append_assoc buf p (concat ps))
                (read_slice-Sliced r (buf ++ p) ps
                  (h.0, omega (arith, length-append buf p), h.2.1)))
        | inr n ↦
            let less_room : r.cap - length buf < length p = ground arith in
            rw n (filled_up r buf p ps h less less_room)
      ])
