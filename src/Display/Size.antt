-- ===== src/Display/Size.antt =====
-- display_device.cpp: what `parse_resolution_string` reads.
use solari.Base.{
  ℕ, ◌≤◌, ◌≡◌, ◌≢◌, refl, sym, ap, ◌∙◌, subst, [], ◌∷◌, ◌++◌, Option, none, some, Bool, true, false,
  not, ◌&&◌, ◌||◌, leb, ◌==◌, arith, All, Bool-cases, Option-cases, inl, inr, if◌then◌else◌,
}
use mathlib.Core.List.{append-nil}
use solari.Base.Text.{
  Text, IsDigits, value, decimal, value-decimal, decimal-IsDigits, decimal-ne_nil,
}
use solari.Process.State.{is_empty}
use solari.Display.Parse.{
  Resolution, Libraries, span_digits, after_width, match_resolution, stou, resolution_of,
  parse_resolution_string,
}
use solari.Display.Number.{span_digits-append, span_digits-all, span_digits-Spanned}

-- `std::isspace` in the classic locale.
abbrev pub is_space : ℕ → Bool
is_space c = leb 9 c && leb c 13 || c == 32

abbrev pub AllSpaces : Text → Type 0
AllSpaces t = All (λ c. is_space c ≡ true) t

abbrev pub NoSpaces : Text → Type 0
NoSpaces t = All (λ c. is_space c ≡ false) t

-- `trim_copy` takes away the space at both ends of a text.
abbrev pub TrimsSpace : Libraries → Type 0
TrimsSpace lib =
    (pre core post : Text)
    → AllSpaces pre
    → NoSpaces core
    → AllSpaces post
    → lib.trim_copy (pre ++ (core ++ post)) ≡ core

pub is_empty-ne_nil : (t : Text) → t ≢ [] → is_empty t ≡ false
is_empty-ne_nil [] h = absurd (h refl)
is_empty-ne_nil (c ∷ t) h = refl

pub is_empty-eq : (t : Text) → is_empty t ≡ true → t ≡ []
is_empty-eq [] e = refl
is_empty-eq (c ∷ t) e = cc

pub NoSpaces-digits : (ds t : Text) → IsDigits ds → NoSpaces t → NoSpaces (ds ++ t)
NoSpaces-digits [] t h n = n
NoSpaces-digits (d ∷ ds) t (e, h) n = (ground arith, NoSpaces-digits ds t h n)

NoSpaces-all : (ds : Text) → IsDigits ds → NoSpaces ds
NoSpaces-all [] h = tt
NoSpaces-all (d ∷ ds) (e, h) = (ground arith, NoSpaces-all ds h)

abbrev as_text : ℕ → ℕ → Text
as_text w h = decimal w ++ b'x' ∷ decimal h

match_resolution-print : (w h : ℕ) → match_resolution (as_text w h) ≡ some (decimal w, decimal h)
unfolding match_resolution after_width
match_resolution-print w h =
    rw
      (
        span_digits-append (decimal w) (b'x' ∷ decimal h) (decimal-IsDigits w) refl,
        span_digits-all (decimal h) (decimal-IsDigits h),
        is_empty-ne_nil (decimal w) (decimal-ne_nil w),
        is_empty-ne_nil (decimal h) (decimal-ne_nil h),
      )
      refl

stou-decimal : (n : ℕ) → n ≤ 4294967295 → stou (decimal n) ≡ some n
unfolding stou
stou-decimal n h =
    let small : leb n 4294967295 ≡ true = ground arith in rw (value-decimal n, small) refl

pub parse-matched :
    (lib : Libraries) (input t w h : Text)
    → lib.trim_copy input ≡ t
    → match_resolution t ≡ some (w, h)
    → parse_resolution_string lib input ≡ resolution_of (stou w) (stou h)
unfolding parse_resolution_string
parse-matched lib input t w h e m = rw (parse_resolution_string, e, m) refl

-- Two numbers of 32 bits, written in decimal with an x between them and with any space before and after,
-- are read back.
pub parse_resolution_string-print :
    (lib : Libraries) (pre post : Text) (w h : ℕ)
    → TrimsSpace lib
    → AllSpaces pre
    → AllSpaces post
    → w ≤ 4294967295
    → h ≤ 4294967295
    → parse_resolution_string lib (pre ++ ((decimal w ++ b'x' ∷ decimal h) ++ post))
      ≡ some (some (record { width = w; height = h }))
parse_resolution_string-print lib pre post w h trims before after wide high =
    let digits =
      NoSpaces-digits (decimal w) (b'x' ∷ decimal h) (decimal-IsDigits w)
        (refl, NoSpaces-all (decimal h) (decimal-IsDigits h)) in
    parse-matched lib _ (as_text w h) (decimal w) (decimal h)
      (trims pre (as_text w h) post before digits after) (match_resolution-print w h)
    ∙ rw (stou-decimal w wide, stou-decimal h high) refl

-- What a matched text is made of.
pub record Sized (t w h : Text) : Type 0 where
  pub shape : t ≡ w ++ b'x' ∷ h
  pub wide : IsDigits w × (w ≢ [])
  pub high : IsDigits h × (h ≢ [])

ne_nil : (t : Text) → is_empty t ≡ false → t ≢ []
ne_nil [] e p = cc
ne_nil (c ∷ t) e p = cc

after_width-Sized :
    (ds t w h : Text) → IsDigits ds → after_width ds t ≡ some (w, h) → Sized (ds ++ t) w h
unfolding after_width
after_width-Sized ds [] w h d e = cc
after_width-Sized ds (c ∷ t) w h d e =
    let (high, rest) = span_digits t in
    let (shape, digits) = span_digits-Spanned t in
    let test = c == b'x' && not (is_empty ds) && not (is_empty high) && is_empty rest in
    elim (Bool-cases test) [
      | inl good ↦
          let width : ds ≡ w = ground arith in
          let height : high ≡ h = ground arith in
          let x : c ≡ b'x' = ground arith in
          let over : rest ≡ [] = is_empty-eq rest (ground arith) in
          let tail : t ≡ high = shape ∙ ap (λ r. high ++ r) over ∙ append-nil high in
          rw (← width, ← height)
            (record {
              shape = ap (λ u. ds ++ u) (ap (λ a. a ∷ t) x ∙ ap (λ u. b'x' ∷ u) tail);
              wide = (d, ne_nil ds (ground arith));
              high = (digits, ne_nil high (ground arith));
            })
      | inr bad ↦ absurd (ground arith)
    ]

match_resolution-Sized : (t w h : Text) → match_resolution t ≡ some (w, h) → Sized t w h
unfolding match_resolution
match_resolution-Sized t w h e =
    let (ds, rest) = span_digits t in
    let (shape, digits) = span_digits-Spanned t in
    subst (λ u. Sized u w h) (sym shape) (after_width-Sized ds rest w h digits e)

-- A resolution read from a text: its two runs of digits, whose values are numbers of 32 bits.
pub record Reads (t : Text) (r : Resolution) : Type 0 where
  pub w : Text
  pub h : Text
  pub sized : Sized t w h
  pub width : r.width ≡ value w
  pub height : r.height ≡ value h
  pub bounds : (r.width ≤ 4294967295) × (r.height ≤ 4294967295)

stou-value : (t : Text) (n : ℕ) → stou t ≡ some n → (n ≡ value t) × (n ≤ 4294967295)
unfolding stou
stou-value t n e = (ground arith, ground arith)

resolution_of-some :
    (a b : Option ℕ) (r : Resolution)
    → resolution_of a b ≡ some (some r)
    → (a ≡ some r.width) × (b ≡ some r.height)
resolution_of-some (some a) (some b) r e = (ground arith, ground arith)
resolution_of-some (some a) none r e = cc
resolution_of-some none b r e = cc

parse-unmatched :
    (lib : Libraries) (input : Text) (r : Resolution)
    → match_resolution (lib.trim_copy input) ≡ none
    → parse_resolution_string lib input ≢ some (some r)
unfolding parse_resolution_string
parse-unmatched lib input r m e =
    let none_left : (if is_empty (lib.trim_copy input) then some none else none) ≡ some (some r) =
      rw (← e, parse_resolution_string, m) refl in
    elim (Bool-cases (is_empty (lib.trim_copy input))) [
      | inl t ↦ absurd (ground arith)
      | inr t ↦ absurd (ground arith)
    ]

-- If a resolution is read, then the trimmed text is digits, an x and digits, and nothing else; the
-- width and the height are the values of the digits, and both fit in 32 bits.
pub parse_resolution_string-Reads :
    (lib : Libraries) (input : Text) (r : Resolution)
    → parse_resolution_string lib input ≡ some (some r)
    → Reads (lib.trim_copy input) r
parse_resolution_string-Reads lib input r e =
    let t = lib.trim_copy input in
    elim (Option-cases (match_resolution t)) [
      | inl m ↦ absurd (parse-unmatched lib input r m e)
      | inr ((w, h), m) ↦
          let (wide, high) =
            resolution_of-some (stou w) (stou h) r
              (sym (parse-matched lib input t w h refl m) ∙ e) in
          record {
            w = w;
            h = h;
            sized = match_resolution-Sized t w h m;
            width = (stou-value w r.width wide).0;
            height = (stou-value h r.height high).0;
            bounds = ((stou-value w r.width wide).1, (stou-value h r.height high).1);
          }
    ]
