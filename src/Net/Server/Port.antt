-- ===== src/Net/Server/Port.antt =====
-- single_shot_server.cc: the acceptor, which Start opens, binds and lets listen, and GetLocalPort.
use ppl_me.Common.{
  ℕ, ◌≡◌, ◌≢◌, refl, ap, sym, subst, Bool, true, false, not, ◌&&◌, Option, some, none,
  if◌then◌else◌, if_elim, arith,
}
use ppl_me.Net.Server.{SingleShotServer, StartOps, start}

-- What the ports and threads of the host `H` do in Start: whether open, listen and std::thread have
-- no error, and the port that bind takes for the one asked for, where 0 stands for any.
pub record PortOps (H : Type 0) : Type 0 where
  pub open_ok : H → Bool
  pub bind : H → ℕ → Option (H × ℕ)
  pub listen_ok : H → ℕ → Bool
  pub thread_ok : H → Bool

-- bind takes the port that it is asked for, and none that is taken.
pub record PortLaws (H : Type 0) (ops : PortOps H) : Type 0 where
  pub in_use : H → ℕ → Bool
  pub bind_as_asked : (h h' : H) (p q : ℕ) → ops.bind h p ≡ some (h', q) → p ≢ 0 → q ≡ p
  pub bind_takes : (h h' : H) (p q : ℕ) → ops.bind h p ≡ some (h', q) → in_use h' q ≡ true
  pub bind_refuses : (h : H) (p : ℕ) → in_use h p ≡ true → ops.bind h p ≡ none

-- acceptor_: not open, open, bound to a port, listening at it.
pub data Acceptor : Type 0 where
  closed opened : Acceptor
  bound listening : ℕ → Acceptor

-- endpoint_'s port, acceptor_, and the rest of the server.
pub record Listener : Type 0 where
  pub port : ℕ
  pub acceptor : Acceptor
  pub server : SingleShotServer

abbrev pub is_open : Acceptor → Bool
is_open closed = false
is_open opened = true
is_open (bound p) = true
is_open (listening p) = true

-- GetLocalPort; `none` is the exception of local_endpoint, and an unbound socket has port 0.
unfoldable pub get_local_port : Listener → Option ℕ
get_local_port s = elim s.acceptor [
  | closed ↦ none
  | opened ↦ some 0
  | bound p ↦ some p
  | listening p ↦ some p
]

-- What Start goes by once its acceptor is ready, or not.
abbrev pub start_ops : Bool → Bool → StartOps
start_ops ready thread_ok = record {
  open_ok = ready;
  bind_ok = ready;
  listen_ok = ready;
  thread_ok = thread_ok;
}

module _ {H : Type 0} (ops : PortOps H) where
  -- bind and listen: the host, the acceptor, and whether there was no error.
  unfoldable pub listen_at : H → ℕ → Option (H × ℕ) → H × Acceptor × Bool
  listen_at h p none = (h, opened, false)
  listen_at h p (some (h', q)) =
      if ops.listen_ok h' q then (h', listening q, true) else (h', bound q, false)

  -- The calls of the acceptor in Start. To open it twice is an error.
  unfoldable pub open_acceptor : H → ℕ → Acceptor → H × Acceptor × Bool
  unfolding listen_at
  open_acceptor h p a =
      if not (is_open a) && ops.open_ok h then listen_at h p (ops.bind h p) else (h, a, false)

  -- Start, and whether it succeeds.
  unfoldable pub start_at : H → Listener → H × Listener × Bool
  unfolding open_acceptor
  start_at h s =
      let (h', a, ready) = open_acceptor h s.port s.acceptor in
      let (server, started) = start (start_ops ready (ops.thread_ok h')) s.server in
      (h', record s { acceptor = a; server = server }, started)

  listen_at_opens : (h : H) (p : ℕ) (o : Option (H × ℕ)) → is_open (listen_at h p o).1 ≡ true
  unfolding listen_at
  listen_at_opens h p none = refl
  listen_at_opens h p (some (h', q)) =
      if_elim (λ (x : H × Acceptor × Bool). is_open x.1 ≡ true) (ops.listen_ok h' q) (λ l. refl)
        (λ l. refl)

  open_acceptor_opens :
      (h : H) (p : ℕ) (a : Acceptor) → ops.open_ok h ≡ true → is_open (open_acceptor h p a).1 ≡ true
  unfolding open_acceptor
  open_acceptor_opens h p a can =
      if_elim (λ (x : H × Acceptor × Bool). is_open x.1 ≡ true) (not (is_open a) && ops.open_ok h)
        (λ c. listen_at_opens h p (ops.bind h p)) (λ c. ground arith)

  start_at_open : (h : H) (s : Listener) → is_open s.acceptor ≡ true → start_at h s ≡ (h, s, false)
  unfolding start_at open_acceptor start
  start_at_open h s is = rw is refl

  -- Once a Start has opened the acceptor, even if it then failed as its port was taken, every
  -- later Start of that server fails and changes nothing, whatever became of the host's ports
  -- and of the rest of the server, a Shutdown included.
  pub start_at_again :
      (h later_h : H) (s : Listener) (later : SingleShotServer)
      → ops.open_ok h ≡ true
      → start_at later_h (record (start_at h s).1 { server = later })
        ≡ (later_h, record (start_at h s).1 { server = later }, false)
  unfolding start_at
  start_at_again h later_h s later can =
      start_at_open later_h (record (start_at h s).1 { server = later })
        (open_acceptor_opens h s.port s.acceptor can)

  start_ready :
      (thread_ok ready : Bool) (s : SingleShotServer)
      → (start (start_ops ready thread_ok) s).1 ≡ true
      → ready ≡ true
  unfolding start
  start_ready thread_ok true s h = refl
  start_ready thread_ok false s h = absurd (cc)

  module _ (laws : PortLaws H ops) where
    -- The acceptor listens at a port that is taken from then on, and that was asked for.
    abbrev pub ListensAt : ℕ → H → Acceptor → Type 0
    ListensAt p h a = (q : ℕ) × (a ≡ listening q) × (laws.in_use h q ≡ true) × (p ≢ 0 → q ≡ p)

    abbrev ListensIf : ℕ → H × Acceptor × Bool → Type 0
    ListensIf p (h, a, ready) = ready ≡ true → ListensAt p h a

    listen_at-ListensIf :
        (h : H) (p : ℕ) (o : Option (H × ℕ)) → ops.bind h p ≡ o → ListensIf p (listen_at h p o)
    unfolding listen_at
    listen_at-ListensIf h p none e = λ r. absurd (cc)
    listen_at-ListensIf h p (some (h', q)) e =
        if_elim (ListensIf p) (ops.listen_ok h' q)
          (λ l r. (q, refl, laws.bind_takes h h' p q e, laws.bind_as_asked h h' p q e))
          (λ l r. absurd (cc))

    open_acceptor-ListensIf : (h : H) (p : ℕ) (a : Acceptor) → ListensIf p (open_acceptor h p a)
    unfolding open_acceptor
    open_acceptor-ListensIf h p a =
        if_elim (ListensIf p) (not (is_open a) && ops.open_ok h)
          (λ c. listen_at-ListensIf h p (ops.bind h p) refl) (λ c r. absurd (cc))

    open_acceptor_refused :
        (h : H) (p : ℕ) (a : Acceptor) → laws.in_use h p ≡ true → (open_acceptor h p a).2 ≡ false
    unfolding open_acceptor listen_at
    open_acceptor_refused h p a taken =
        if_elim (λ (x : H × Acceptor × Bool). x.2 ≡ false) (not (is_open a) && ops.open_ok h)
          (λ c. rw (laws.bind_refuses h p taken) refl) (λ c. refl)

    start_refused :
        (ready thread_ok : Bool) (s : SingleShotServer)
        → ready ≡ false
        → (start (start_ops ready thread_ok) s).1 ≡ false
    unfolding start
    start_refused true thread_ok s h = absurd (cc)
    start_refused false thread_ok s h = refl

    start_at_refused :
        (h : H) (s : Listener) → laws.in_use h s.port ≡ true → (start_at h s).2 ≡ false
    unfolding start_at
    start_at_refused h s taken =
        start_refused _ _ s.server (open_acceptor_refused h s.port s.acceptor taken)

    -- For a bind that takes the port it is asked for and refuses one that is taken: when Start
    -- succeeds, GetLocalPort gives a port q, which is the one asked for unless that was 0, and
    -- Start of any other server for q fails then.
    pub start_at-get_local_port :
        (h : H) (s : Listener)
        → (start_at h s).2 ≡ true
        → (q : ℕ) × (get_local_port (start_at h s).1 ≡ some q)
          × (s.port ≢ 0 → q ≡ s.port)
          × ((other : Listener) → other.port ≡ q → (start_at (start_at h s).0 other).2 ≡ false)
    unfolding start_at get_local_port
    start_at-get_local_port h s started =
        let (q, at, taken, asked) =
          open_acceptor-ListensIf h s.port s.acceptor (start_ready _ _ s.server started) in
        (
          q,
          ap (λ x. get_local_port (record s { acceptor = x })) at,
          asked,
          λ other same. start_at_refused _ other (
              subst (λ p. laws.in_use (open_acceptor h s.port s.acceptor).0 p ≡ true) (sym same)
                taken),
        )
