-- ===== src/Runtime/Versions.antt =====
-- The version that `getClusterVersion` of controllers/runtime.go settles on.
use Prim.Native.Char.{Char, code}
use Prim.Native.String.append
use special_resource_operato.Prelude.{
  ◌≡◌, ◌≢◌, refl, ap, ◌∙◌, String, ◌<>◌, List, [], ◌∷◌, ◌++◌, All, nat_eq, eq_iff, false, arith,
}
use special_resource_operato.Exec.{new, returned, raised}
use special_resource_operato.Env.{UpdateHistory}
use special_resource_operato.Runtime.{split_dots, major_minor, completed_version}

-- No character of the text is a dot.
unfoldable pub HasNoDot : String → Type 0
HasNoDot String.[] = Unit
HasNoDot (String.◌∷◌ c s) = (nat_eq (code c) b'.' ≡ false) × HasNoDot s

split_dots-alone : (s : String) → HasNoDot s → split_dots s ≡ (s, [])
unfolding split_dots HasNoDot
split_dots-alone String.[] h = refl
split_dots-alone (String.◌∷◌ c s) (miss, h) = rw (miss, split_dots-alone s h)

split_dots-cons :
    (c : Char) (s : String)
    → nat_eq (code c) b'.' ≡ false
    → split_dots (String.◌∷◌ c s) ≡ (String.◌∷◌ c (split_dots s).0, (split_dots s).1)
unfolding split_dots
split_dots-cons c s miss = rw miss

split_dots-dot : (s : String) → split_dots ("." <> s) ≡ ("", (split_dots s).0 ∷ (split_dots s).1)
unfolding split_dots
split_dots-dot s =
    let dot : Char = "." in
    ap split_dots (append.cons dot String.[] s ∙ ap (λ t. String.◌∷◌ dot t) (append.nil s))

split_dots-part :
    (part s : String)
    → HasNoDot part
    → split_dots (part <> ("." <> s)) ≡ (part, (split_dots s).0 ∷ (split_dots s).1)
unfolding HasNoDot
split_dots-part String.[] s h = ap split_dots (append.nil ("." <> s)) ∙ split_dots-dot s
split_dots-part (String.◌∷◌ c part) s (miss, h) =
    ap split_dots (append.cons c part ("." <> s))
    ∙ split_dots-cons c (part <> ("." <> s)) miss
    ∙ ap (λ p. (String.◌∷◌ c p.0, p.1)) (split_dots-part part s h)

-- An entry of the history for a version that was reached.
abbrev pub completed : String → UpdateHistory
completed version = record { state = "Completed"; version = version }

-- The version is that of the first entry of the history whose state is Completed, however many
-- entries that are not completed stand before it and whatever stands behind it.
pub completed_version-first :
    (before after : List UpdateHistory) (c : UpdateHistory)
    → All (λ h. h.state ≢ "Completed") before
    → c.state ≡ "Completed"
    → completed_version (before ++ c ∷ after)
      ≡ returned (c.version, major_minor (split_dots c.version))
unfolding completed_version
completed_version-first [] after c all h = rw h refl
completed_version-first (b ∷ before) after c (first, all) h =
    ground (arith, eq_iff b.state "Completed", completed_version-first before after c all h)

-- The first completed version is shortened to its first two parts: a version with a further dot behind
-- them to what stands before that dot, and a version of two parts, or of one without a dot, is whole.
pub completed_version-major_minor :
    (before after : List UpdateHistory) (major minor more : String)
    → All (λ h. h.state ≢ "Completed") before
    → HasNoDot major
    → HasNoDot minor
    → (completed_version (before ++ completed (major <> ("." <> (minor <> ("." <> more)))) ∷ after)
        ≡ returned (major <> ("." <> (minor <> ("." <> more))), major <> ("." <> minor)))
      × (completed_version (before ++ completed (major <> ("." <> minor)) ∷ after)
          ≡ returned (major <> ("." <> minor), major <> ("." <> minor)))
      × (completed_version (before ++ completed major ∷ after) ≡ returned (major, major))
unfolding major_minor
completed_version-major_minor before after major minor more all h k = (
  shortened (major <> ("." <> (minor <> ("." <> more)))) (major <> ("." <> minor)) (
      ap major_minor (split_dots-part major (minor <> ("." <> more)) h)
      ∙ ap (λ p. major_minor (major, p.0 ∷ p.1)) (split_dots-part minor more k)),
  shortened (major <> ("." <> minor)) (major <> ("." <> minor)) (
      ap major_minor (split_dots-part major minor h)
      ∙ ap (λ p. major_minor (major, p.0 ∷ p.1)) (split_dots-alone minor k)),
  shortened major major (ap major_minor (split_dots-alone major h)),
)
  where
    shortened :
        (version short : String)
        → major_minor (split_dots version) ≡ short
        → completed_version (before ++ completed version ∷ after) ≡ returned (version, short)
    shortened version short e =
        completed_version-first before after (completed version) all refl
        ∙ ap (λ v. returned (version, v)) e

-- Without a completed entry there is no version.
completed_version-none :
    (history : List UpdateHistory)
    → All (λ h. h.state ≢ "Completed") history
    → completed_version history ≡ raised (new "Undefined Cluster Version")
unfolding completed_version
completed_version-none [] all = refl
completed_version-none (b ∷ rest) (first, all) =
    ground (arith, eq_iff b.state "Completed", completed_version-none rest all)
