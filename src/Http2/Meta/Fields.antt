-- ===== src/Http2/Meta/Fields.antt =====
-- What the fields of a `MetaHeadersFrame` of internal/http2/frame.go are meant to be, and what
-- `checkPseudos` decides of it.
use req.Base.{
  ℕ, ◌+◌, ◌≤◌, ◌≡◌, ◌≢◌, ◌⊎◌, inl, inr, refl, Bool, true, false, ◌||◌, Bool-cases, none, List, [],
  ◌∷◌, ◌++◌, All, arith,
}
use req.Base.Bytes.{names_differ}
use req.Http2.Names.{valid_wire_header_field_name}
use req.Http2.Meta.{
  Hpack, has_colon, is_request_name, is_response_name, regular_fields, pseudo_fields, seen_before,
  check_pseudos_from,
}

module _ (lib : Hpack) where
  abbrev pub total_size : List lib.Field → ℕ
  total_size [] = 0
  total_size (f ∷ fs) = lib.field_size f + total_size fs

  -- A valid value under a pseudo name or a valid name in lower case.
  abbrev pub ValidField : lib.Field → Type 0
  ValidField f =
      (lib.valid_header_field_value (lib.val f) ≡ true)
      × ((has_colon (lib.name f) || valid_wire_header_field_name lib.is_token_rune (lib.name f))
          ≡ true)

  abbrev pub Regular : lib.Field → Type 0
  Regular f = lib.is_pseudo f ≡ false

  abbrev pub Pseudo : lib.Field → Type 0
  Pseudo f = lib.is_pseudo f ≡ true

  abbrev pub Request : lib.Field → Type 0
  Request f = is_request_name (lib.name f) ≡ true

  abbrev pub Response : lib.Field → Type 0
  Response f = is_response_name (lib.name f) ≡ true

  -- Each field has another name than those before it, of which `seen` are the first.
  abbrev pub Distinct : List lib.Field → List lib.Field → Type 0
  Distinct seen [] = Unit
  Distinct seen (f ∷ fs) = All (λ g. lib.name f ≢ lib.name g) seen × Distinct (seen ++ f ∷ []) fs

  pub record IsMeta (max : ℕ) (fields : List lib.Field) : Type 0 where
    pub valid : All ValidField fields
    pub pseudos_first : All Regular (regular_fields lib fields)
    pub distinct : Distinct [] (pseudo_fields lib fields)
    pub one_kind : All Request (pseudo_fields lib fields) ⊎ All Response (pseudo_fields lib fields)
    pub within : total_size fields ≤ max

  seen_before-All :
      (f : lib.Field) (seen : List lib.Field)
      → seen_before lib (lib.name f) seen ≡ false
      → All (λ g. lib.name f ≢ lib.name g) seen
  unfolding seen_before
  seen_before-All f [] h = tt
  seen_before-All f (g ∷ gs) h =
      (names_differ (lib.name f) (lib.name g) (ground arith), seen_before-All f gs (ground arith))

  abbrev pub OneKind : Bool → Bool → List lib.Field → Type 0
  OneKind request response fs =
      ((response ≡ false) × All Request fs) ⊎ ((request ≡ false) × All Response fs)

  one_more :
      (request response : Bool) (f : lib.Field) (fs : List lib.Field)
      → (is_request_name (lib.name f) || is_response_name (lib.name f)) ≡ true
      → OneKind
          (request || is_request_name (lib.name f))
          (response || is_response_name (lib.name f))
          fs
      → OneKind request response (f ∷ fs)
  one_more request response f fs known (inl (no_response, all)) =
      inl (ground arith, (ground arith, all))
  one_more request response f fs known (inr (no_request, all)) =
      inr (ground arith, (ground arith, all))

  pub check_pseudos_from-Sound :
      (request response : Bool) (seen fs : List lib.Field)
      → check_pseudos_from lib request response seen fs ≡ none
      → Distinct seen fs × OneKind request response fs
  unfolding check_pseudos_from
  check_pseudos_from-Sound true true seen [] h = absurd (ground arith)
  check_pseudos_from-Sound request false seen [] h = (tt, inl (refl, tt))
  check_pseudos_from-Sound false response seen [] h = (tt, inr (refl, tt))
  check_pseudos_from-Sound request response seen (f ∷ fs) h =
      let n = lib.name f in
      elim (Bool-cases (is_request_name n || is_response_name n)) [
        | inr unknown ↦ absurd (ground arith)
        | inl known ↦ elim (Bool-cases (seen_before lib n seen)) [
          | inl twice ↦ absurd (ground arith)
          | inr new ↦
              let (distinct, kinds) =
                check_pseudos_from-Sound (request || is_request_name n)
                  (response || is_response_name n) (seen ++ f ∷ []) fs (ground arith) in
              ((seen_before-All f seen new, distinct), one_more request response f fs known kinds)
        ]
      ]
