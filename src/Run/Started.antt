-- ===== src/Run/Started.antt =====
-- What a run has when the goroutines of main.go start.
use go_replayer.Config.Follows.{Follows, resolve_config-Follows}
use go_replayer.Config.Checks.{resolve_config}
use go_replayer.Prelude.Int.{pos_part}
use go_replayer.Config.Dialled.{
  HasCredentials, build_dial_options-HasCredentials, build_dial_options-paired,
}
use go_replayer.Replay.LoadBounds.{load_requests-IsBounded, IsReplayable}
use go_replayer.Config.Usable.{IsUsable, resolve_config-IsUsable}
use go_replayer.Config.Flags.{Flags, Host}
use go_replayer.Config.Dial.{Trust, DialOption, pair_incomplete, DialError, build_dial_options}
use go_replayer.Machine.{Machine}
use mathlib.Core.Path.{subst}
use Prim.Native.Nat.{zero}
use go_replayer.Replay.Reader.{Request}
use go_replayer.Replay.Load.{Loaded, load_requests}
use go_replayer.Run.Start.{
  some_requests, open_connections, StartError, or_quit, or_no_client, start_run, Started, dialling,
  config, loading,
}
use go_replayer.Prelude.{
  Outcome, ℕ, Option, List, ◌≡◌, All, ok, some, err, is_empty, length, false, stuck, arith, suc,
  zero, ok-injective, none, >>=-eq-ok, length-append, Text, ◌∷◌, [], ◌≢◌, All-append, refl, ◌>>=◌,
  >>=-eq-err, inl, inr, ◌∙◌, ap,
}

or_quit-ok :
    {E A : Type 0} (o : Outcome E A) (wrap : E → StartError) {a : A}
    → or_quit o wrap ≡ ok a
    → o ≡ ok a
or_quit-ok (ok b) wrap h = cc
or_quit-ok (err e) wrap h = cc
or_quit-ok stuck wrap h = cc

-- A run that ends in a later error has passed this step.
past :
    {E A B : Type 0} (o : Outcome E A) (wrap : E → StartError) (f : A → Outcome StartError B)
    {x : StartError}
    → ((e : E) → o ≡ err e → wrap e ≢ x)
    → (or_quit o wrap >>= f) ≡ err x
    → (a : A) × (o ≡ ok a) × (f a ≡ err x)
past (ok a) wrap f other h = (a, refl, h)
past (err e) wrap f other h = absurd (other e refl (wrapped h))
  where
    wrapped :
        {B : Type 0} {x y : StartError} → ◌≡◌ {A = Outcome StartError B} (err x) (err y) → x ≡ y
    wrapped q = cc
past stuck wrap f other h = cc

some_requests-err : (st : Loaded) {e : DialError} → some_requests st ≢ err (dialling e)
unfolding some_requests
some_requests-err st h = ground arith

or_no_client-err :
    {Conn : Type 0} (i : ℕ) (o : Option Conn) {e : DialError} → or_no_client i o ≢ err (dialling e)
or_no_client-err i (some c) h = cc
or_no_client-err i none h = cc

inner : {d e : DialError} → dialling d ≡ dialling e → d ≡ e
inner h = cc

open_connections-err :
    {Conn : Type 0} (connect : ℕ → Option Conn) (n : ℕ) {e : DialError}
    → open_connections connect n ≢ err (dialling e)
unfolding open_connections
open_connections-err connect zero h = cc
open_connections-err connect (suc n) h = elim (>>=-eq-err (open_connections connect n) _ h) [
  | inl before ↦ open_connections-err connect n before
  | inr (conns, opened, h1) ↦ elim (>>=-eq-err (or_no_client n (connect n)) _ h1) [
    | inl wrong ↦ or_no_client-err n (connect n) wrong
    | inr (conn, last, h2) ↦ absurd (cc)
  ]
]

some_requests-ok :
    (st : Loaded) (reqs : List Request)
    → some_requests st ≡ ok reqs
    → (st.reqs ≡ reqs) × (is_empty reqs ≡ false)
unfolding some_requests
some_requests-ok st reqs h = ground arith

-- Each connection is one that NewClient opened.
abbrev pub AreOpened : {Conn : Type 0} → (ℕ → Option Conn) → List Conn → Type 0
AreOpened connect conns = All (λ conn. (i : ℕ) × (connect i ≡ some conn)) conns

or_no_client-ok :
    {Conn : Type 0} (i : ℕ) (o : Option Conn) {conn : Conn}
    → or_no_client i o ≡ ok conn
    → o ≡ some conn
or_no_client-ok i (some c) h = cc
or_no_client-ok i none h = cc

open_connections-ok :
    {Conn : Type 0} (connect : ℕ → Option Conn) (n : ℕ) (conns : List Conn)
    → open_connections connect n ≡ ok conns
    → (length conns ≡ n) × AreOpened connect conns
unfolding open_connections
open_connections-ok {Conn} connect zero conns h =
    subst (λ (cs : List Conn). (length cs ≡ 0) × AreOpened connect cs) (ok-injective h) (refl, tt)
open_connections-ok {Conn} connect (suc n) conns h =
    let (before, opened, h1) = >>=-eq-ok _ _ h in
    let (conn, last, h2) = >>=-eq-ok _ _ h1 in
    let (long, all) = open_connections-ok connect n before opened in
    subst (λ (cs : List Conn). (length cs ≡ suc n) × AreOpened connect cs) (ok-injective h2)
      (
        omega (arith, long, length-append before (conn ∷ [])),
        All-append (λ c. (i : ℕ) × (connect i ≡ some c)) before (conn ∷ []) all
            ((n, or_no_client-ok n _ last), tt),
      )

module _ ⦃m : Machine⦄ ⦃trust : Trust⦄ where
  -- The requests can be sent and the connections are those that the flags ask for.
  pub record IsStarted {Conn : Type 0} (host : Host) (open_file : Text → Option (List ℕ))
      (flags : Flags) (new_client : ℕ → Text → List DialOption → Option Conn) (s : Started Conn)
      : Type 0 where
    pub usable : IsUsable flags s.config
    pub follows : Follows host flags s.config
    pub loaded : Loaded
    pub read : load_requests (open_file s.config.file) ≡ ok loaded
    pub read_reqs : loaded.reqs ≡ s.reqs
    pub requests_given : is_empty s.reqs ≡ false
    pub replayable : All IsReplayable s.reqs
    pub options : List DialOption
    pub credentials :
        HasCredentials s.config.use_tls s.config.insecure s.config.cert s.config.key s.config.ca
          options
    pub connected : length s.conns ≡ pos_part s.config.connections
    pub opened : AreOpened (λ i. new_client i s.config.target options) s.conns

  -- A run that starts has a configuration that it can run with and that says what the flags say: the
  -- parsed target, the rate, replicas, duration, method, timeout and bursts, and the file, certificate,
  -- key, roots, TLS and connections that are given or, in takeover mode, those of the artifacts found
  -- under the install root, with TLS. It has the requests of that file, at least one, each of which can
  -- be sent, and as many connections as that configuration says, each opened to its target with its
  -- credentials.
  pub start_run-IsStarted :
      {Conn : Type 0} (host : Host) (open_file : Text → Option (List ℕ))
      (new_client : ℕ → Text → List DialOption → Option Conn) (flags : Flags) (s : Started Conn)
      → start_run host open_file new_client flags ≡ ok s
      → IsStarted host open_file flags new_client s
  unfolding start_run
  start_run-IsStarted host open_file new_client flags s h =
      let (c, resolved, h1) = >>=-eq-ok _ _ h in
      let (loaded, read, h2) = >>=-eq-ok _ _ h1 in
      let (reqs, some_given, h3) = >>=-eq-ok _ _ h2 in
      let (opts, built, h4) = >>=-eq-ok _ _ h3 in
      let (conns, opened, h5) = >>=-eq-ok _ _ h4 in
      let (same, given) = some_requests-ok loaded reqs some_given in
      let (long, all) = open_connections-ok _ _ conns opened in
      let bounded = load_requests-IsBounded (open_file c.file) loaded (or_quit-ok _ _ read) in
      subst (IsStarted host open_file flags new_client) (ok-injective h5) (record {
        usable = resolve_config-IsUsable host flags c (or_quit-ok _ _ resolved);
        follows = resolve_config-Follows host flags c (or_quit-ok _ _ resolved);
        loaded = loaded;
        read = or_quit-ok _ _ read;
        read_reqs = same;
        requests_given = given;
        replayable = subst (All IsReplayable) same bounded.replayable;
        options = opts;
        credentials = build_dial_options-HasCredentials _ _ _ _ _ opts (or_quit-ok _ _ built);
        connected = long;
        opened = all;
      })

  -- main never reaches buildDialOptions with a certificate that has no key, or a key without a
  -- certificate: that is an error of the flags.
  pub start_run-pair_incomplete :
      {Conn : Type 0} (host : Host) (open_file : Text → Option (List ℕ))
      (new_client : ℕ → Text → List DialOption → Option Conn) (flags : Flags)
      → start_run host open_file new_client flags ≢ err (dialling pair_incomplete)
  unfolding start_run
  start_run-pair_incomplete host open_file new_client flags h =
      let (c, resolved, h1) = past (resolve_config host flags) config _ (λ e q. cc) h in
      let (loaded, read, h2) = past (load_requests (open_file c.file)) loading _ (λ e q. cc) h1 in
      elim (>>=-eq-err (some_requests loaded) _ h2) [
        | inl wrong ↦ some_requests-err loaded wrong
        | inr (reqs, given, h3) ↦
            let usable = resolve_config-IsUsable host flags c resolved in
            let (opts, built, h4) =
              past (build_dial_options c.use_tls c.insecure c.cert c.key c.ca) dialling _
                (λ e q same.
                  build_dial_options-paired c.use_tls c.insecure c.cert c.key c.ca usable.paired
                    (q ∙ ap err (inner same)))
                h3 in
            elim (>>=-eq-err
              (open_connections (λ i. new_client i c.target opts) (pos_part c.connections)) _ h4) [
                | inl wrong ↦ open_connections-err _ _ wrong
                | inr (conns, opened, h5) ↦ absurd (cc)
              ]
      ]
