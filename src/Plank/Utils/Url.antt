-- ===== src/Plank/Utils/Url.antt =====
-- plank/utils/uri.go, for texts in ASCII: lists of bytes, which are their runes.
use transport_go.Prelude.{
  ◌≡◌, refl, arith, ℕ, Bool, true, false, Option, none, some, List, [], ◌∷◌, ◌++◌, ◌&&◌, ◌==◌,
  if◌then◌else◌, Option-cases, Bool-cases, inl, inr, ◌∙◌, ap, sym,
}

abbrev pub slash : ℕ
slash = b'/'

-- "http://" and "https://"
abbrev pub http : List ℕ
http = 104 ∷ 116 ∷ 116 ∷ 112 ∷ 58 ∷ 47 ∷ 47 ∷ []

abbrev pub https : List ℕ
https = 104 ∷ 116 ∷ 116 ∷ 112 ∷ 115 ∷ 58 ∷ 47 ∷ 47 ∷ []

unfoldable pub starts_with : List ℕ → List ℕ → Bool
starts_with [] text = true
starts_with (p ∷ prefix) [] = false
starts_with (p ∷ prefix) (c ∷ text) = p == c && starts_with prefix text

-- FindAllString of "https?://": the first match, wherever it stands.
unfoldable pub find_protocol : List ℕ → Option (List ℕ)
unfolding starts_with
find_protocol [] = none
find_protocol (c ∷ url) =
    let below = find_protocol url in
    if starts_with https (c ∷ url)
    then some https
    else (if starts_with http (c ∷ url) then some http else below)

-- url[startLoc:]
unfoldable pub behind : List ℕ → List ℕ → List ℕ
behind [] url = url
behind (p ∷ match) [] = []
behind (p ∷ match) (c ∷ url) = behind match url

-- The loop, with `isAtForwardSlash`.
unfoldable pub squeeze : Bool → List ℕ → List ℕ
squeeze at_slash [] = []
squeeze at_slash (c ∷ url) =
    let skipped = squeeze at_slash url in
    let kept = squeeze (c == slash) url in if at_slash && c == slash then skipped else c ∷ kept

-- The last byte and those before it; `none` is the panic of the index.
unfoldable pub split_last : List ℕ → Option (List ℕ × ℕ)
split_last [] = none
split_last (c ∷ rest) = elim (split_last rest) [
  | none ↦ some ([], c)
  | some (front, last) ↦ some (c ∷ front, last)
]

unfoldable pub end_with : Bool → List ℕ → Option (List ℕ)
unfolding split_last
end_with suffix_slash sanitized = elim (split_last sanitized) [
  | none ↦ none
  | some (front, last) ↦
      if suffix_slash
      then some (if last == slash then sanitized else sanitized ++ slash ∷ [])
      else some (if last == slash then front else sanitized)
]

unfoldable pub sanitize_url : List ℕ → Bool → Option (List ℕ)
unfolding find_protocol behind squeeze end_with
sanitize_url [] suffix_slash = some []
sanitize_url (c ∷ url) suffix_slash = elim (find_protocol (c ∷ url)) [
  | none ↦ end_with suffix_slash (squeeze false (c ∷ url))
  | some match ↦ end_with suffix_slash (match ++ squeeze false (behind match (c ∷ url)))
]

-- No slash stands behind a slash; the flag says whether one stands in front.
unfoldable pub is_single : Bool → List ℕ → Bool
is_single at_slash [] = true
is_single at_slash (c ∷ url) =
    let below = is_single (c == slash) url in if at_slash && c == slash then false else below

unfoldable pub ends_in_slash : List ℕ → Bool
unfolding split_last
ends_in_slash text = elim (split_last text) [ none ↦ false | some (front, last) ↦ last == slash ]

squeeze-is_single :
    (at_slash : Bool) (url : List ℕ) → is_single at_slash (squeeze at_slash url) ≡ true
unfolding squeeze is_single
squeeze-is_single at_slash [] = refl
squeeze-is_single at_slash (c ∷ url) =
    ground (arith, squeeze-is_single at_slash url, squeeze-is_single (c == slash) url)

-- The squeeze of a text without double slashes is the text.
is_single-squeeze :
    (at_slash : Bool) (url : List ℕ) → is_single at_slash url ≡ true → squeeze at_slash url ≡ url
unfolding squeeze is_single
is_single-squeeze at_slash [] e = refl
is_single-squeeze at_slash (c ∷ url) e = ground (arith, e, is_single-squeeze (c == slash) url)

split_last_cons :
    (c : ℕ) (rest : List ℕ)
    → (front : List ℕ) × (last : ℕ) × (split_last (c ∷ rest) ≡ some (front, last))
unfolding split_last
split_last_cons c rest = elim (Option-cases (split_last rest)) [
  | inl n ↦ ([], c, ground (arith, n))
  | inr ((front, last), y) ↦ (c ∷ front, last, ground (arith, y))
]

split_last-append : (text : List ℕ) (last : ℕ) → split_last (text ++ last ∷ []) ≡ some (text, last)
unfolding split_last
split_last-append [] last = refl
split_last-append (c ∷ text) last = ground (arith, split_last-append text last)

split_last-joined :
    (text front : List ℕ) (last : ℕ)
    → split_last text ≡ some (front, last)
    → text ≡ front ++ last ∷ []
unfolding split_last
split_last-joined [] front last e = absurd (ground (arith, e))
split_last-joined (c ∷ []) front last e = ground (arith, e)
split_last-joined (c ∷ d ∷ rest) front last e =
    let (inner, found, y) = split_last_cons d rest in
    ground (arith, y, e, split_last-joined (d ∷ rest) inner found y)

is_single-front :
    (at_slash : Bool) (front : List ℕ) (last : ℕ)
    → is_single at_slash (front ++ last ∷ []) ≡ true
    → is_single at_slash front ≡ true
unfolding is_single
is_single-front at_slash [] last e = refl
is_single-front at_slash (c ∷ front) last e =
    ground (arith, e, is_single-front (c == slash) front last)

is_single-add_slash :
    (at_slash : Bool) (front : List ℕ) (last : ℕ)
    → (last == slash) ≡ false
    → is_single at_slash (front ++ last ∷ []) ≡ true
    → is_single at_slash ((front ++ last ∷ []) ++ slash ∷ []) ≡ true
unfolding is_single
is_single-add_slash at_slash [] last n e = ground (arith, n)
is_single-add_slash at_slash (c ∷ front) last n e =
    ground (arith, n, e, is_single-add_slash (c == slash) front last n)

ends_in_slash_cons :
    (c d : ℕ) (rest : List ℕ) → ends_in_slash (c ∷ d ∷ rest) ≡ ends_in_slash (d ∷ rest)
unfolding ends_in_slash split_last
ends_in_slash_cons c d rest = ground (arith, split_last_cons d rest)

ends_in_slash-front :
    (at_slash : Bool) (front : List ℕ)
    → is_single at_slash (front ++ slash ∷ []) ≡ true
    → ends_in_slash front ≡ false
unfolding is_single ends_in_slash split_last
ends_in_slash-front at_slash [] e = refl
ends_in_slash-front at_slash (c ∷ []) e = ground (arith, e)
ends_in_slash-front at_slash (c ∷ d ∷ front) e =
    ends_in_slash_cons c d front ∙ ends_in_slash-front (c == slash) (d ∷ front) (ground (arith, e))

-- With a byte to look at, `end_with` ends a text without double slashes as asked.
end_with-some :
    (suffix_slash : Bool) (c : ℕ) (rest : List ℕ)
    → is_single false (c ∷ rest) ≡ true
    → (out : List ℕ) × (end_with suffix_slash (c ∷ rest) ≡ some out)
      × (is_single false out ≡ true)
      × (ends_in_slash out ≡ suffix_slash)
unfolding end_with ends_in_slash
end_with-some suffix_slash c rest single =
    let (front, last, y) = split_last_cons c rest in
    let joined = split_last-joined (c ∷ rest) front last y in
    let parts : is_single false (front ++ last ∷ []) ≡ true =
      ap (λ l. is_single false l) (sym joined) ∙ single in
    elim (Bool-cases (last == slash)) [
      | inl e ↦
          let same : last ≡ slash = ground (arith, e) in
          elim (Bool-cases suffix_slash) [
            | inl on ↦ (c ∷ rest, ground (arith, y, e, on), single, ground (arith, y, e, on))
            | inr off ↦ (
              front,
              ground (arith, y, e, off),
              is_single-front false front last parts,
              ends_in_slash-front false front
                    (ap (λ v. is_single false (front ++ v ∷ [])) (sym same) ∙ parts)
                  ∙ sym off,
            )
          ]
      | inr n ↦ elim (Bool-cases suffix_slash) [
        | inl on ↦ (
          (c ∷ rest) ++ slash ∷ [],
          ground (arith, y, n, on),
          ap (λ l. is_single false (l ++ slash ∷ [])) joined
              ∙ is_single-add_slash false front last n parts,
          ground (arith, split_last-append (c ∷ rest) slash, on),
        )
        | inr off ↦ (c ∷ rest, ground (arith, y, n, off), single, ground (arith, y, n, off))
      ]
    ]

-- A text that is not empty and has no protocol comes back without double slashes, with a slash at
-- its end exactly if one is asked for.
pub sanitize_url-is_single :
    (c : ℕ) (url : List ℕ) (suffix_slash : Bool)
    → find_protocol (c ∷ url) ≡ none
    → (out : List ℕ) × (sanitize_url (c ∷ url) suffix_slash ≡ some out)
      × (is_single false out ≡ true)
      × (ends_in_slash out ≡ suffix_slash)
unfolding sanitize_url squeeze
sanitize_url-is_single c url suffix_slash e =
    let (out, q, single, ends) =
      end_with-some suffix_slash c (squeeze (c == slash) url) (squeeze-is_single false (c ∷ url)) in
    (out, ground (arith, e, q), single, ends)
