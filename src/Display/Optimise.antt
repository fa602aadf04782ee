-- ===== src/Display/Optimise.antt =====
-- display_device.cpp: a client that does not let the host optimise its settings keeps its resolution.
use solari.Base.{
  ◌≡◌, refl, sym, ap, ◌∙◌, subst, List, [], ◌∷◌, Option, none, some, true, false, ◌>>=◌, arith,
  Option-cases, inl, inr,
}
use mathlib.Core.Bool.{false≢true}
use solari.Process.State.{LaunchSession}
use solari.Display.Parse.{Libraries, parse_refresh_rate_string, Resolution, Rational}
use solari.Display.{
  VideoConfig, Entry, DisplayConfig, RemappingType, remap_entries, remap_display_mode_if_needed,
  determine_remapping_type, remapping_list, parse_resolution_option, parse_refresh_rate_option,
  parse_configuration, configured, configuration_disabled, ModeOption, automatic, manual, unchanged,
  client_rate, specified, with_refresh_rate, parse_device_prep_option, parse_hdr_option, outcome_of,
}
use solari.Display.Remap.{Remapped, unmatched, passed, first, remap_entries-Remapped}

-- The refresh rate alone changes.
with_refresh_rate-resolution :
    (c d : DisplayConfig) (r : Option Rational)
    → with_refresh_rate c r ≡ some d
    → d.resolution ≡ c.resolution
with_refresh_rate-resolution c d none h = cc
with_refresh_rate-resolution c d (some r) h = ap (λ o. resolution_of_config o) (sym h)
  where
    resolution_of_config : Option DisplayConfig → Option Resolution
    resolution_of_config none = none
    resolution_of_config (some d) = d.resolution

module _ (lib : Libraries) (v : VideoConfig) (s : LaunchSession) where
  parse_resolution_option-kept :
      (c : DisplayConfig) → s.enable_sops ≡ false → parse_resolution_option lib v s c ≡ some c
  unfolding parse_resolution_option
  parse_resolution_option-kept c off = choose v.resolution_option refl
    where
      choose :
          (o : ModeOption) → v.resolution_option ≡ o → parse_resolution_option lib v s c ≡ some c
      choose unchanged e = rw (parse_resolution_option, e) refl
      choose automatic e = rw (parse_resolution_option, e, off) refl
      choose manual e = rw (parse_resolution_option, e, off) refl

  parse_refresh_rate_option-resolution :
      (c d : DisplayConfig)
      → parse_refresh_rate_option lib v s c ≡ some d
      → d.resolution ≡ c.resolution
  unfolding parse_refresh_rate_option
  parse_refresh_rate_option-resolution c d h = choose v.refresh_rate_option refl
    where
      choose : (o : ModeOption) → v.refresh_rate_option ≡ o → d.resolution ≡ c.resolution
      choose unchanged e =
          let same : some c ≡ some d = rw (← h, parse_refresh_rate_option, e) refl in ground arith
      choose automatic e =
          with_refresh_rate-resolution c d (client_rate s.fps)
            (rw (← h, parse_refresh_rate_option, e) refl)
      choose manual e =
          with_refresh_rate-resolution c d
            (specified (parse_refresh_rate_string lib v.manual_refresh_rate true))
            (rw (← h, parse_refresh_rate_option, e) refl)

remapped-kept :
    (lib : Libraries) (s : LaunchSession) (c d : DisplayConfig) (type : RemappingType)
    (es : List Entry)
    → s.enable_sops ≡ false
    → c.resolution ≡ none
    → Remapped lib s c type es d
    → d.resolution ≡ none
remapped-kept lib s c d type [] off e unmatched = e
remapped-kept lib s c d type (x ∷ es) off e (passed p q f m r) =
    remapped-kept lib s c d type es off e r
remapped-kept lib s c d type (x ∷ es) off e (first p q f m) = elim m.optimised [
  | inl on ↦ absurd (false≢true (sym off ∙ on))
  | inr (a, b) ↦ elim (Option-cases p.final_resolution) [
    | inl n ↦ rw n e
    | inr (r, n) ↦ absurd (ground arith)
  ]
]

remap-kept :
    (lib : Libraries) (v : VideoConfig) (s : LaunchSession) (c d : DisplayConfig)
    → s.enable_sops ≡ false
    → c.resolution ≡ none
    → remap_display_mode_if_needed lib v s c ≡ some d
    → d.resolution ≡ none
unfolding remap_display_mode_if_needed
remap-kept lib v s c d off e h = elim (Option-cases (determine_remapping_type v)) [
  | inl n ↦
      let same : some c ≡ some d = rw (← h, remap_display_mode_if_needed, n) refl in ground arith
  | inr (type, n) ↦
      let es = remapping_list v type in
      let same : remap_entries lib s c type es ≡ some d =
        rw (← h, remap_display_mode_if_needed, n) refl in
      remapped-kept lib s c d type es off e ((remap_entries-Remapped lib s c type es d).0 same)
]

configured-inj : (a d : DisplayConfig) → configured a ≡ configured d → a ≡ d
configured-inj a d e = ground arith

-- Where the client does not let the host optimise its settings, a configuration that is made of the
-- user's and the client's wishes sets no resolution, whatever the user configured.
pub parse_configuration-no_resolution :
    (lib : Libraries) (v : VideoConfig) (s : LaunchSession) (d : DisplayConfig)
    → s.enable_sops ≡ false
    → parse_configuration lib v s ≡ configured d
    → d.resolution ≡ none
unfolding parse_configuration
parse_configuration-no_resolution lib v s d off h =
    elim (Option-cases (parse_device_prep_option v)) [
      | inl n ↦
          let same : configuration_disabled ≡ configured d =
            rw (← h, parse_configuration, n) refl in
          absurd (cc)
      | inr (prep, n) ↦
          let c : DisplayConfig = record {
            device_id = v.output_name;
            device_prep = prep;
            hdr_state = parse_hdr_option v s;
            resolution = none;
            refresh_rate = none;
          } in
          let same : outcome_of (
                parse_refresh_rate_option lib v s c >>= λ e. remap_display_mode_if_needed lib v s e)
              ≡ configured d =
            rw (← h, parse_configuration, n, parse_resolution_option-kept lib v s c off) refl in
          elim (Option-cases (parse_refresh_rate_option lib v s c)) [
            | inl m ↦ absurd (ground arith)
            | inr (e, m) ↦ elim (Option-cases (remap_display_mode_if_needed lib v s e)) [
              | inl k ↦ absurd (ground arith)
              | inr (f, k) ↦
                  let last : f ≡ d = ground arith in
                  subst (λ g. g.resolution ≡ none) last
                    (remap-kept lib v s e f off (parse_refresh_rate_option-resolution lib v s c e m)
                      k)
            ]
          ]
    ]
