-- ===== src/Replay/Takeover.antt =====
-- firstExisting, choosePath, resolveTakeoverInstallRoot and resolveTakeoverArtifacts of main.go. The
-- tests for a file and filepath.Join are parameters, as the tests are in the source.
use mathlib.Core.Path.{subst}
use go_replayer.Prelude.{
  Text, List, [], ◌∷◌, ◌++◌, Bool, true, false, Option, none, some, Outcome, ok, err, ◌>>=◌,
  if◌then◌else◌, codes, map, is_empty, ◌≡◌, ◌⊎◌, inl, inr, refl, All, Bool-cases, not, arith,
  Option-cases, ap, sym, >>=-eq-ok, ok-injective,
}

pub record TakeoverArtifacts : Type 0 where
  pub install_root : Text
  pub replay_file : Text
  pub cert_file : Text
  pub key_file : Text
  pub ca_file : Text

-- The messages, with the label and the paths that they print.
pub data TakeoverError : Type 0 where
  no_install_root : Text → TakeoverError
  root_not_discovered : List Text → TakeoverError
  no_override : Text → Text → TakeoverError
  not_discovered : Text → List Text → TakeoverError

abbrev pub install_root_candidates : List Text
install_root_candidates = codes "/opt/replay/install" ∷ codes "/var/lib/replay/install" ∷ []

abbrev pub replay_file_candidates : List Text
replay_file_candidates =
    codes "replay_2gb.bin"
    ∷ codes "recorded_requests.bin"
    ∷ codes "var/replay_2gb.bin"
    ∷ codes "var/recorded_requests.bin"
    ∷ []

abbrev pub ca_candidates : List Text
ca_candidates = codes "var/identity.ca" ∷ codes "var/identity-ca.crt" ∷ codes "var/ca.crt" ∷ []

-- The path, or none for `"", false`.
unfoldable pub first_existing : List Text → (Text → Bool) → Option Text
first_existing [] exists = none
first_existing (p ∷ ps) exists = if exists p then some p else first_existing ps exists

unfoldable pub resolve_takeover_install_root : Text → (Text → Bool) → Outcome TakeoverError Text
resolve_takeover_install_root explicit dir_exists =
    if not (is_empty explicit)
    then (if dir_exists explicit then ok explicit else err (no_install_root explicit))
    else elim (first_existing install_root_candidates dir_exists) [
      | some root ↦ ok root
      | none ↦ err (root_not_discovered install_root_candidates)
    ]

unfoldable pub choose_path : Text → List Text → (Text → Bool) → Text → Outcome TakeoverError Text
choose_path override candidates exists label =
    if not (is_empty override)
    then (if exists override then ok override else err (no_override label override))
    else elim (first_existing candidates exists) [
      | some selected ↦ ok selected
      | none ↦ err (not_discovered label candidates)
    ]

-- The CA file may be missing: its path is then empty.
unfoldable pub choose_ca : Text → List Text → (Text → Bool) → Outcome TakeoverError Text
choose_ca override candidates exists =
    if not (is_empty override)
    then (if exists override then ok override else err (no_override (codes "CA") override))
    else elim (first_existing candidates exists) [ some selected ↦ ok selected | none ↦ ok [] ]

unfoldable pub resolve_takeover_artifacts :
    (Text → Text → Text)
    → Text
    → Text
    → Text
    → Text
    → Text
    → (Text → Bool)
    → Outcome TakeoverError TakeoverArtifacts
resolve_takeover_artifacts join root replay cert key ca exists =
    choose_path replay (map (join root) replay_file_candidates) exists (codes "replay file")
    >>= λ replay_file.
        choose_path cert (join root (codes "var/identity.cert") ∷ []) exists (codes "client cert")
        >>= λ cert_file.
            choose_path key (join root (codes "var/identity.key") ∷ []) exists (codes "client key")
            >>= λ key_file. choose_ca ca (map (join root) ca_candidates) exists >>= λ ca_file.
                ok (record {
                  install_root = root;
                  replay_file = replay_file;
                  cert_file = cert_file;
                  key_file = key_file;
                  ca_file = ca_file;
                })

-- `p` is the first of the candidates that is there.
pub record IsFirst (candidates : List Text) (exists : Text → Bool) (p : Text) : Type 0 where
  pub front : List Text
  pub back : List Text
  pub split : candidates ≡ front ++ p ∷ back
  pub absent : All (λ q. exists q ≡ false) front
  pub present : exists p ≡ true

-- An override wins, and must be there; else the first candidate that is there is taken.
abbrev pub Chosen : Text → List Text → (Text → Bool) → Text → Type 0
Chosen override candidates exists p =
    ((is_empty override ≡ false) × (p ≡ override) × (exists p ≡ true))
    ⊎ ((is_empty override ≡ true) × IsFirst candidates exists p)

first_existing-IsFirst :
    (ps : List Text) (exists : Text → Bool) (p : Text)
    → first_existing ps exists ≡ some p
    → IsFirst ps exists p
unfolding first_existing
first_existing-IsFirst [] exists p e = cc
first_existing-IsFirst (q ∷ ps) exists p e = elim (Bool-cases (exists q)) [
  | inl there ↦
      let same : q ≡ p = ground arith in
      record { front = []; back = ps; split = rw same refl; absent = tt; present = rw⁻¹ same there }
  | inr gone ↦
      let rest = first_existing-IsFirst ps exists p (ground arith) in
      record {
        front = q ∷ rest.front;
        back = rest.back;
        split = ap (◌∷◌ q) rest.split;
        absent = (gone, rest.absent);
        present = rest.present;
      }
]

choose_path-Chosen :
    (override : Text) (candidates : List Text) (exists : Text → Bool) (label p : Text)
    → choose_path override candidates exists label ≡ ok p
    → Chosen override candidates exists p
unfolding choose_path
choose_path-Chosen override candidates exists label p e = elim (Bool-cases (is_empty override)) [
  | inl none_given ↦ elim (Option-cases (first_existing candidates exists)) [
    | inl missing ↦ absurd (ground arith)
    | inr (q, found) ↦ inr (none_given, first_existing-IsFirst candidates exists p (ground arith))
  ]
  | inr given ↦ elim (Bool-cases (exists override)) [
    | inl there ↦ let same : override ≡ p = ground arith in inl (given, sym same, rw⁻¹ same there)
    | inr gone ↦ absurd (ground arith)
  ]
]

choose_ca-Chosen :
    (override : Text) (candidates : List Text) (exists : Text → Bool) (p : Text)
    → choose_ca override candidates exists ≡ ok p
    → Chosen override candidates exists p
      ⊎ ((is_empty override ≡ true) × (first_existing candidates exists ≡ none) × (p ≡ []))
unfolding choose_ca
choose_ca-Chosen override candidates exists p e = elim (Bool-cases (is_empty override)) [
  | inl none_given ↦ elim (Option-cases (first_existing candidates exists)) [
    | inl missing ↦ inr (none_given, missing, ground arith)
    | inr (q, found) ↦
        inl (inr (none_given, first_existing-IsFirst candidates exists p (ground arith)))
  ]
  | inr given ↦ elim (Bool-cases (exists override)) [
    | inl there ↦
        let same : override ≡ p = ground arith in inl (inl (given, sym same, rw⁻¹ same there))
    | inr gone ↦ absurd (ground arith)
  ]
]

-- Where each path of the artifacts comes from.
abbrev pub Resolved :
    (Text → Text → Text)
    → Text
    → Text
    → Text
    → Text
    → Text
    → (Text → Bool)
    → TakeoverArtifacts
    → Type 0
Resolved join root replay cert key ca exists a =
    (a.install_root ≡ root)
    × Chosen replay (map (join root) replay_file_candidates) exists a.replay_file
    × Chosen cert (join root (codes "var/identity.cert") ∷ []) exists a.cert_file
    × Chosen key (join root (codes "var/identity.key") ∷ []) exists a.key_file
    × (Chosen ca (map (join root) ca_candidates) exists a.ca_file
        ⊎ ((is_empty ca ≡ true)
            × (first_existing (map (join root) ca_candidates) exists ≡ none)
            × (a.ca_file ≡ [])))

-- When the artifacts are resolved, each of the replay file, the certificate and the key is the
-- override, which is there, or without one the first candidate under the install root that is there;
-- so is the CA file, except that it is empty where no override is given and no candidate is there.
pub resolve_takeover_artifacts-Resolved :
    (join : Text → Text → Text) (root replay cert key ca : Text) (exists : Text → Bool)
    (a : TakeoverArtifacts)
    → resolve_takeover_artifacts join root replay cert key ca exists ≡ ok a
    → Resolved join root replay cert key ca exists a
unfolding resolve_takeover_artifacts
resolve_takeover_artifacts-Resolved join root replay cert key ca exists a e =
    let (r, p, e1) = >>=-eq-ok _ _ e in
    let (c, q, e2) = >>=-eq-ok _ _ e1 in
    let (k, s, e3) = >>=-eq-ok _ _ e2 in
    let (f, t, e4) = >>=-eq-ok _ _ e3 in
    subst (Resolved join root replay cert key ca exists) (ok-injective e4) (
      refl,
      choose_path-Chosen _ _ _ _ _ p,
      choose_path-Chosen _ _ _ _ _ q,
      choose_path-Chosen _ _ _ _ _ s,
      choose_ca-Chosen _ _ _ _ t,
    )

-- An install root that is resolved is a directory: the explicit one, or without one the first of the
-- known places.
pub resolve_takeover_install_root-Chosen :
    (explicit : Text) (dir_exists : Text → Bool) (root : Text)
    → resolve_takeover_install_root explicit dir_exists ≡ ok root
    → Chosen explicit install_root_candidates dir_exists root
unfolding resolve_takeover_install_root
resolve_takeover_install_root-Chosen explicit dir_exists root e =
    elim (Bool-cases (is_empty explicit)) [
      | inl none_given ↦ elim (Option-cases (first_existing install_root_candidates dir_exists)) [
        | inl missing ↦ absurd (ground arith)
        | inr (q, found) ↦ inr (
          none_given,
          first_existing-IsFirst install_root_candidates dir_exists root (ground arith),
        )
      ]
      | inr given ↦ elim (Bool-cases (dir_exists explicit)) [
        | inl there ↦
            let same : explicit ≡ root = ground arith in inl (given, sym same, rw⁻¹ same there)
        | inr gone ↦ absurd (ground arith)
      ]
    ]
