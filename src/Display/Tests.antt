-- ===== src/Display/Tests.antt =====
-- display_device.cpp: display modes read, remapped and refused, with a trimming by clauses.
use solari.Base.{
  ℕ, ◌^◌, ◌≤◌, ◌≡◌, refl, ap, ◌∙◌, List, [], ◌∷◌, ◌++◌, none, some, Bool, true, false, ◌&&◌, ◌↔◌,
  arith, All, ◌==◌, Bool-cases, inl, inr, if◌then◌else◌,
}
use solari.Base.Int.{pos}
use solari.Base.Text
use solari.Base.Text.{Text, codes, decimal}
use solari.Process.State.{LaunchSession, is_empty}
use solari.Display
use solari.Display.Parse
use solari.Display.Parse.{
  Resolution, Rational, Libraries, is_zero, parse_resolution_string, parse_refresh_rate_string,
}
use solari.Display.{
  VideoConfig, Entry, DisplayConfig, DevicePreparation, prep_primary, ensure_primary, automatic,
  manual, unchanged, only_rate, remap_entries, parse_configuration, configured,
}
use solari.Display.Size.{
  TrimsSpace, AllSpaces, NoSpaces, is_space, is_empty-eq, Reads, parse_resolution_string-print,
  parse_resolution_string-Reads,
}
use solari.Display.Rate.{
  TrimsZeros, Fraction, parse_refresh_rate_string-Fraction, parse_refresh_rate_string-overflow,
}
use solari.Display.Remap.{Remapped, remap_entries-Remapped}
use solari.Display.Optimise.{parse_configuration-no_resolution}

abbrev trim_left : (ℕ → Bool) → Text → Text
trim_left p [] = []
trim_left p (c ∷ t) = if p c then trim_left p t else c ∷ t

abbrev trim_right : (ℕ → Bool) → Text → Text
trim_right p [] = []
trim_right p (c ∷ t) = let rest = trim_right p t in if p c && is_empty rest then [] else c ∷ rest

abbrev libraries : Libraries
libraries = record {
  trim_copy = λ t. trim_right is_space (trim_left is_space t);
  trim_left_copy_if = trim_left;
  trim_right_copy_if = trim_right;
  same_resolution = λ r s. r.width == s.width && r.height == s.height;
  same_rate = λ r s. r.numerator == s.numerator && r.denominator == s.denominator;
  out_of_range_cast = λ k. 10 ^ k;
}

trim_left-spaces :
    (pre t : Text) → AllSpaces pre → trim_left is_space (pre ++ t) ≡ trim_left is_space t
trim_left-spaces [] t h = refl
trim_left-spaces (c ∷ pre) t (e, h) = rw e (trim_left-spaces pre t h)

trim_right-spaces : (post : Text) → AllSpaces post → trim_right is_space post ≡ []
trim_right-spaces [] h = refl
trim_right-spaces (c ∷ post) (e, h) = rw (e, trim_right-spaces post h) refl

trim_right-core :
    (core post : Text) → NoSpaces core → AllSpaces post → trim_right is_space (core ++ post) ≡ core
trim_right-core [] post n h = trim_right-spaces post h
trim_right-core (c ∷ core) post (e, n) h = rw (e, trim_right-core core post n h) refl

libraries-TrimsSpace : TrimsSpace libraries
libraries-TrimsSpace pre [] post before n after =
    ap (λ t. trim_right is_space t)
      (trim_left-spaces pre post before ∙ trim_left-spaces-all post after)
  where
    trim_left-spaces-all : (post : Text) → AllSpaces post → trim_left is_space post ≡ []
    trim_left-spaces-all [] h = refl
    trim_left-spaces-all (c ∷ post) (e, h) = rw e (trim_left-spaces-all post h)
libraries-TrimsSpace pre (c ∷ core) post before (e, n) after =
    ap (λ t. trim_right is_space t) (trim_left-spaces pre ((c ∷ core) ++ post) before)
    ∙ rw e (trim_right-core (c ∷ core) post (e, n) after)

libraries-TrimsZeros : TrimsZeros libraries
libraries-TrimsZeros = record { left = left; right = right }
  where
    left :
        (t : Text)
        → (pre : Text) × All (λ c. is_zero c ≡ true) pre × (t ≡ pre ++ trim_left is_zero t)
    left [] = ([], tt, refl)
    left (c ∷ t) = elim (Bool-cases (is_zero c)) [
      | inl e ↦ let (pre, h, s) = left t in rw e (c ∷ pre, (e, h), ap (λ u. c ∷ u) s)
      | inr e ↦ rw e ([], tt, refl)
    ]

    right :
        (t : Text)
        → (post : Text) × All (λ c. is_zero c ≡ true) post × (t ≡ trim_right is_zero t ++ post)
    right [] = ([], tt, refl)
    right (c ∷ t) =
        let (post, h, s) = right t in
        let rest = trim_right is_zero t in
        elim (Bool-cases (is_zero c && is_empty rest)) [
          | inl e ↦
              let zero_digit : is_zero c ≡ true = ground arith in
              let nil : rest ≡ [] = is_empty-eq rest (ground arith) in
              rw e (c ∷ post, (zero_digit, h), ap (λ u. c ∷ u) (s ∙ ap (λ r. r ++ post) nil))
          | inr e ↦ rw e (post, h, ap (λ u. c ∷ u) s)
        ]

parse_resolution_string-print_example :
    parse_resolution_string libraries
      ((32 ∷ []) ++ ((decimal 1920 ++ b'x' ∷ decimal 1080) ++ 10 ∷ []))
    ≡ some (some (record { width = 1920; height = 1080 }))
parse_resolution_string-print_example =
    parse_resolution_string-print libraries (32 ∷ []) (10 ∷ []) 1920 1080 libraries-TrimsSpace
      (refl, tt) (refl, tt) (omega arith) (omega arith)

abbrev hd : Resolution
hd = record { width = 1280; height = 720 }

hd_text : parse_resolution_string libraries (codes " 1280x0720") ≡ some (some hd)
unfolding parse_resolution_string Parse.match_resolution Parse.span_digits Parse.after_width
    Parse.stou Text.value_onto
hd_text = refl

parse_resolution_string-Reads_example : Reads (codes "1280x0720") hd
parse_resolution_string-Reads_example =
    parse_resolution_string-Reads libraries (codes " 1280x0720") hd hd_text

parse_refresh_rate_string-Fraction_example :
    (q : Rational) × (parse_refresh_rate_string libraries (codes " 059.940") true ≡ some (some q))
    × Fraction (codes "059") (codes "940") q
unfolding Text.value_onto
parse_refresh_rate_string-Fraction_example =
    parse_refresh_rate_string-Fraction libraries (codes " 059.940") (codes "059") (codes "940")
      libraries-TrimsZeros refl (refl, (refl, (refl, tt))) (refl, (refl, (refl, tt))) (λ e. cc)
      (λ e. cc) (omega arith) small
  where
    small : Text.value (codes "059940") ≤ 4294967295
    small = omega arith

abbrev tiny : Text
tiny = codes "0000000001"

parse_refresh_rate_string-overflow_example :
    (n : ℕ) × (parse_refresh_rate_string libraries (codes "0.0000000001") true
      ≡ some (some (record { numerator = n; denominator = 10000000000 })))
unfolding Text.value_onto
parse_refresh_rate_string-overflow_example =
    parse_refresh_rate_string-overflow libraries (codes "0.0000000001") (codes "0") tiny
      libraries-TrimsZeros refl (refl, tt) digits (λ e. cc) (λ e. cc) (omega arith) small
  where
    digits : Text.IsDigits tiny
    digits = (refl, (refl, (refl, (refl, (refl, (refl, (refl, (refl, (refl, (refl, tt))))))))))

    small : Text.value (codes "00000000001") ≤ 4294967295
    small = omega arith

abbrev entry : Text → Text → Entry
entry wanted rate = record {
  requested_resolution = [];
  requested_fps = wanted;
  final_resolution = [];
  final_refresh_rate = rate;
}

abbrev session : LaunchSession
session = record {
  width = pos 1280;
  height = pos 720;
  fps = pos 60;
  enable_hdr = false;
  gcmap = pos 0;
  host_audio = false;
  enable_sops = false;
  surround_info = 2;
  surround_params = [];
}

abbrev entries : List Entry
entries = entry (codes "30") (codes "25") ∷ entry (codes "60") (codes "59.94") ∷ []

abbrev mode : ℕ → ℕ → DisplayConfig
mode n d = record {
  device_id = [];
  device_prep = prep_primary;
  hdr_state = none;
  resolution = none;
  refresh_rate = some (record { numerator = n; denominator = d });
}

remap_entries-Remapped_example :
    (remap_entries libraries session (mode 60 1) only_rate entries ≡ some (mode 5994 100))
    ↔ Remapped libraries session (mode 60 1) only_rate entries (mode 5994 100)
remap_entries-Remapped_example =
    remap_entries-Remapped libraries session (mode 60 1) only_rate entries (mode 5994 100)

abbrev config : VideoConfig
config = record {
  output_name = [];
  configuration_option = ensure_primary;
  resolution_option = manual;
  manual_resolution = codes "1280x720";
  refresh_rate_option = automatic;
  manual_refresh_rate = [];
  hdr_automatic = false;
  mixed = [];
  resolution_only = [];
  refresh_rate_only = entries;
}

whole_configuration : parse_configuration libraries config session ≡ configured (mode 5994 100)
unfolding parse_configuration Display.parse_device_prep_option Display.parse_hdr_option
    Display.parse_resolution_option Display.parse_refresh_rate_option
    Display.remap_display_mode_if_needed Display.determine_remapping_type remap_entries
    Display.verdict Display.verdict_of Display.parse_remapping_entry parse_refresh_rate_string
    Parse.rate_of_digits Parse.power_of_ten Parse.match_rate Parse.after_whole Parse.span_digits
    Parse.stou Text.value_onto
whole_configuration = refl

parse_configuration-no_resolution_example : (mode 5994 100).resolution ≡ none
parse_configuration-no_resolution_example =
    parse_configuration-no_resolution libraries config session (mode 5994 100) refl
      whole_configuration
