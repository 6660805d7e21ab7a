-- ===== src/Tests/Ports.antt =====
-- Examples about the ports of servers.
use ppl_me.Common.{
  ℕ, zero, suc, ◌≡◌, ◌≢◌, refl, ap, sym, ◌∙◌, Bool, true, false, Option, some, none, List, [], ◌∷◌,
  length, if◌then◌else◌, arith, Bool-cases, inl, inr,
}
use ppl_me.Net.Server.{no_server, start, holds}
use ppl_me.Net.Server.Port.{
  PortOps, PortLaws, closed, Listener, get_local_port, listen_at, open_acceptor, start_at,
  start_at_again, start_at-get_local_port,
}

-- A host as the list of its ports that are taken. Port 0 stands for one after another.
abbrev bind : List ℕ → ℕ → Option (List ℕ × ℕ)
bind taken zero = some (suc (length taken) ∷ taken, suc (length taken))
bind taken (suc p) = if holds (suc p) taken then none else some (suc p ∷ taken, suc p)

abbrev host : PortOps (List ℕ)
host = record { open_ok = λ h. true; bind = bind; listen_ok = λ h p. true; thread_ok = λ h. true }

abbrev is_taken : List ℕ → ℕ → Bool
is_taken taken zero = false
is_taken taken (suc p) = holds (suc p) taken

port_of : Option (List ℕ × ℕ) → ℕ
port_of none = 0
port_of (some (h, q)) = q

taken_after : Option (List ℕ × ℕ) → List ℕ
taken_after none = []
taken_after (some (h, q)) = h

bind_as_asked : (h h' : List ℕ) (p q : ℕ) → bind h p ≡ some (h', q) → p ≢ 0 → q ≡ p
unfolding port_of
bind_as_asked h h' zero q e n = absurd (n refl)
bind_as_asked h h' (suc p) q e n = elim (Bool-cases (holds (suc p) h)) [
  | inl t ↦ absurd (let e' : none ≡ some (h', q) = rw t at e in cc)
  | inr t ↦ let e' : some (suc p ∷ h, suc p) ≡ some (h', q) = rw t at e in sym (ap port_of e')
]

holds_first : (p : ℕ) (ps : List ℕ) → holds p (p ∷ ps) ≡ true
holds_first p ps = ground arith

bind_takes : (h h' : List ℕ) (p q : ℕ) → bind h p ≡ some (h', q) → is_taken h' q ≡ true
unfolding port_of taken_after
bind_takes h h' zero q e =
    let taken = ap taken_after e in
    let port = ap port_of e in
    (λ i. is_taken (sym taken i) (sym port i)) ∙ holds_first (suc (length h)) h
bind_takes h h' (suc p) q e = elim (Bool-cases (holds (suc p) h)) [
  | inl t ↦ absurd (let e' : none ≡ some (h', q) = rw t at e in cc)
  | inr t ↦
      let e' : some (suc p ∷ h, suc p) ≡ some (h', q) = rw t at e in
      let taken = ap taken_after e' in
      let port = ap port_of e' in (λ i. is_taken (sym taken i) (sym port i)) ∙ holds_first (suc p) h
]

bind_refuses : (h : List ℕ) (p : ℕ) → is_taken h p ≡ true → bind h p ≡ none
bind_refuses h zero t = absurd (cc)
bind_refuses h (suc p) t = rw t refl

host_laws : PortLaws (List ℕ) host
host_laws = record {
  in_use = is_taken;
  bind_as_asked = bind_as_asked;
  bind_takes = bind_takes;
  bind_refuses = bind_refuses;
}

-- A server that takes any port.
abbrev any_port : Listener
any_port = record { port = 0; acceptor = closed; server = no_server }

start_at-get_local_port_example :
    (q : ℕ) × (get_local_port (start_at host [] any_port).1 ≡ some q)
    × (any_port.port ≢ 0 → q ≡ any_port.port)
    × ((other : Listener)
        → other.port ≡ q
        → (start_at host (start_at host [] any_port).0 other).2 ≡ false)
unfolding start_at open_acceptor listen_at start
start_at-get_local_port_example = start_at-get_local_port host host_laws [] any_port refl

-- Port 80 is taken at first, and later free.
abbrev port_80 : Listener
port_80 = record { port = 80; acceptor = closed; server = no_server }

start_at_again_example :
    start_at host [] (record (start_at host (80 ∷ []) port_80).1 { server = no_server })
    ≡ ([], record (start_at host (80 ∷ []) port_80).1 { server = no_server }, false)
start_at_again_example = start_at_again host (80 ∷ []) [] port_80 no_server refl
