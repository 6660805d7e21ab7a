-- ===== src/Conversation/Matches.antt =====
-- The whole of pplMe: pplmec asks a pplmed whose FindMatchingPpl runs on the pool of its provider.
use ppl_me.Common.{
  ℕ, zero, suc, ◌≤◌, ◌≡◌, refl, sym, ap, subst, ◌∙◌, Bool, true, false, not, Option, some, none,
  List, [], ◌∷◌, ◌++◌, length, map, arith, All, count, select,
}
use ppl_me.Common.Int.{ℤ}
use ppl_me.Core.{Person, PplMatchingParameters, is_valid_position, geo_position}
use ppl_me.Core.Outside.{FloatOps, FloatLaws, DateOps, DateLaws, UuidOps, UuidLaws}
use ppl_me.Proto.{Endian}
use ppl_me.Net.Message.{Message, max_body_length}
use ppl_me.Net.Connection.{SocketOps, SocketLaws, send_message}
use ppl_me.Net.Client.{NetworkOps, resolve_endpoint}
use ppl_me.Net.Server.{service}
use ppl_me.Pool.{NoddyWorkerPool}
use ppl_me.Pplmed.{ProtoOps, request_of, response_of, handle_pplme_request, pplme_request_of}
use ppl_me.Pplme.Cells.Order.{is_born_within}
use ppl_me.Pplmec.{pplme, showed}
use ppl_me.Pplme.Provider.{Impl, find_at}
use ppl_me.Pplme.Find.{System}
use ppl_me.Pplme.Threads.{Host, Worklette, Turn, IsResting, calls, no_find}
use ppl_me.Pplme.Threads.Work.{turns_ahead}
use ppl_me.Pplme.Threads.Schedule.{IsScheduler, drive}
use ppl_me.Pplme.Matching.{find_matching_ppl}
use ppl_me.Pplme.Matching.Holding.{Holds}
use ppl_me.Pplme.Matching.Answer.{AgesFit, matching, IsMatch}
use ppl_me.Pplme.Matching.Answer.Pooled.{find_matching_ppl-drive}
use ppl_me.Conversation.{pplme-service}

none_of_All :
    {A : Type 0} (p : A → Bool) (xs : List A)
    → All (λ x. p x ≡ true) xs
    → count (λ x. not (p x)) xs ≡ 0
none_of_All p [] a = refl
none_of_All p (x ∷ xs) a = ground (arith, a.0, none_of_All p xs a.1)

of_none-All :
    {A : Type 0} (p : A → Bool) (xs : List A)
    → count (λ x. not (p x)) xs ≡ 0
    → All (λ x. p x ≡ true) xs
of_none-All p [] h = tt
of_none-All p (x ∷ xs) h = (ground arith, of_none-All p xs (ground arith))

count-select-le : {A : Type 0} (p q : A → Bool) (xs : List A) → count p (select q xs) ≤ count p xs
count-select-le p q [] = omega arith
count-select-le p q (x ∷ xs) = ground (arith, count-select-le p q xs)

-- The parameters of a user.
abbrev pub wanted_by : {F : Type 0} → ℤ → F → F → PplMatchingParameters F
wanted_by age latitude longitude = record {
  location_of_user = geo_position latitude longitude;
  age_of_user = age;
}

-- The user of this conversation, whose call is the first, and the users of the other calls.
abbrev pub with_user :
    {F : Type 0}
    → PplMatchingParameters F
    → (ℕ → PplMatchingParameters F)
    → ℕ
    → PplMatchingParameters F
with_user parameters others zero = parameters
with_user parameters others (suc i) = others i

module _ {U D F : Type 0} (fl : FloatOps F) (dt : DateOps D) where
  abbrev pub begun_or : Option (System (Person U D F)) → System (Person U D F)
  begun_or none = no_find
  begun_or (some begun) = begun

  -- A pool with n calls of FindMatchingPpl that begin.
  abbrev pub begun_on_pool :
      Impl U D F
      → (today : D) → NoddyWorkerPool Worklette
      → ℕ
      → (ℕ → PplMatchingParameters F)
      → Host (Person U D F)
  begun_on_pool m today p n users = record {
    pool = p;
    contexts = calls n (λ i. begun_or (find_matching_ppl fl dt m today (users i)));
  }

  -- What FindMatchingPpl returns on a pool; `none` would be a failed CHECK, or no return.
  unfoldable pub find_on_pool :
      Impl U D F
      → (today : D) → NoddyWorkerPool Worklette
      → ℕ
      → (ℕ → PplMatchingParameters F)
      → (Host (Person U D F) → Turn)
      → PplMatchingParameters F
      → Option (List (Person U D F))
  find_on_pool m today p n others next parameters =
      drive m.max_ppl m.per_find_concurrency
        (λ i. find_at fl dt m today (with_user parameters others i).age_of_user) 0 next
        (turns_ahead n (begun_on_pool m today p n (with_user parameters others)))
        (begun_on_pool m today p n (with_user parameters others))

  abbrev pub or_nobody : Option (List (Person U D F)) → List (Person U D F)
  or_nobody none = []
  or_nobody (some r) = r

  module _ (fls : FloatLaws F fl) (dlaws : DateLaws D dt) (m : Impl U D F)
      (ps : List (Person U D F)) (holds : Holds fl dt fls dlaws m ps) (today : D) (age : ℤ)
      (latitude longitude : F) (others : ℕ → PplMatchingParameters F) (earliest latest : ℕ → D)
      (fit : (i : ℕ)
        → AgesFit fl dt fls dlaws m today
            (with_user (wanted_by age latitude longitude) others i).age_of_user
            (earliest i)
            (latest i))
      (somewhere : (i : ℕ)
        → is_valid_position fl
            (with_user (wanted_by age latitude longitude) others i).location_of_user
          ≡ true)
      (room : 1 ≤ m.per_find_concurrency) (n : ℕ) (p : NoddyWorkerPool Worklette)
      (at_rest : IsResting p) (some_thread : 1 ≤ length p.workers)
      (next : Host (Person U D F) → Turn)
      (fair : IsScheduler m.max_ppl m.per_find_concurrency
        (λ i.
          find_at fl dt m today (with_user (wanted_by age latitude longitude) others i).age_of_user)
        (suc n)
        next) where
    abbrev pub asked_for : PplMatchingParameters F
    asked_for = wanted_by age latitude longitude

    abbrev pub people : List (Person U D F)
    people = matching fl dt fls dlaws (earliest 0) (latest 0) ps

    found_on_pool :
        (r : List (Person U D F)) × (find_on_pool m today p (suc n) others next asked_for ≡ some r)
        × IsMatch fl dt fls dlaws m.max_ppl people r
    unfolding find_on_pool
    found_on_pool =
        let users : ℕ → PplMatchingParameters F = with_user asked_for others in
        let (begun, begins, backs) =
          find_matching_ppl-drive fl dt fls dlaws m ps holds today users earliest latest fit
            somewhere room (suc n) p at_rest some_thread next fair in
        let (r, back, match) = backs 0 (omega arith) in
        let same : (λ (i : ℕ). begun_or (find_matching_ppl fl dt m today (users i))) ≡ begun =
          λ t i. begun_or (begins i t) in
        (
          r,
          ap
                (λ c.
                  drive m.max_ppl m.per_find_concurrency
                    (λ i. find_at fl dt m today (users i).age_of_user) 0 next
                    (turns_ahead (suc n) (record { pool = p; contexts = calls (suc n) c }))
                    (record { pool = p; contexts = calls (suc n) c }))
                same
              ∙ back,
          match,
        )

    -- Whoever is found was added.
    found-All :
        (q : Person U D F → Bool) (r : List (Person U D F))
        → All (λ x. q x ≡ true) ps
        → IsMatch fl dt fls dlaws m.max_ppl people r
        → All (λ x. q x ≡ true) r
    found-All q r all match = of_none-All q r (
        omega (
          arith,
          match.only (λ x. not (q x)),
          count-select-le (λ x. not (q x)) (is_born_within dt dlaws (earliest 0) (latest 0)) ps,
          none_of_All q ps all,
        ))

    abbrev pub find_here : PplMatchingParameters F → List (Person U D F)
    find_here parameters = or_nobody (find_on_pool m today p (suc n) others next parameters)

    module _ {E S : Type 0} (net : NetworkOps E S) (so : SocketOps S) (laws : SocketLaws S so)
        (po : ProtoOps F) (e : Endian) (ui : UuidOps U) (ulaws : UuidLaws U ui)
        (reads_send_nothing : (t : S) (n : ℕ) → laws.sent (so.read t n).0 ≡ laws.sent t) where
      -- For a provider that holds just the persons ps, all with regular dates of birth, a pool
      -- at rest with at least one thread that this call of FindMatchingPpl shares with n
      -- others, whose users are at valid positions and have ages whose dates can be computed, a
      -- scheduler that lets some thread go when one can, and a conversation of pplmec with a
      -- connection thread of pplmed, whose connection is made, whose sends have no error, whose
      -- short enough frames arrive as they were sent and whose messages protobuf parses back:
      -- Pplme() shows just some r, made of persons of ps born between the two dates for the
      -- client's age, min(max_ppl, their number) long, and with all of them if they are at most
      -- max_ppl.
      pub pplme-IsMatch :
          {P : Type 0} (remote_endpoint : S → Option P) (peer : P) (client server : S)
          → All (λ x. dlaws.is_regular x.date_of_birth ≡ true) ps
          → net.start_thread ≡ true
          → net.eq_endpoint (resolve_endpoint net so e) net.no_endpoint ≡ false
          → net.connect (resolve_endpoint net so e) ≡ some client
          → ((t : S) → remote_endpoint t ≡ some peer)
          → po.parse_request (po.serialize_request (request_of po e ui dt age latitude longitude))
            ≡ some (request_of po e ui dt age latitude longitude)
          → po.parse_response (po.serialize_response (response_of po e ui dt (find_here asked_for)))
            ≡ some (response_of po e ui dt (find_here asked_for))
          → length (po.serialize_request (request_of po e ui dt age latitude longitude))
            ≤ max_body_length
          → length (po.serialize_response (response_of po e ui dt (find_here asked_for)))
            ≤ max_body_length
          → ((t : S) (m : Message) → (send_message so e t m).1 ≡ some true)
          → ((octets : List ℕ)
              → laws.sent
                  (send_message so e client (pplme_request_of po e ui dt age latitude longitude)).0
                ≡ laws.sent client ++ octets
              → laws.incoming server ≡ octets ++ [])
          → ((t : S) (octets : List ℕ)
              → service so e remote_endpoint (λ q. handle_pplme_request po e ui dt find_here) server
                ≡ some t
              → laws.sent t ≡ laws.sent server ++ octets
              → laws.incoming
                  (send_message so e client (pplme_request_of po e ui dt age latitude longitude)).0
                ≡ octets ++ [])
          → (r : List (Person U D F)) × (pplme net so po e ui dt latitude longitude age
              ≡ showed (map some r))
            × IsMatch fl dt fls dlaws m.max_ppl people r
      pplme-IsMatch remote_endpoint peer client server regular on found_it connected there parsed
            answered short_asked short_reply sends request_comes reply_comes =
          let (r, back, match) = found_on_pool in
          let same : find_here asked_for ≡ r = ap or_nobody back in
          let shows =
            pplme-service net so laws po e ui ulaws dt dlaws reads_send_nothing find_here age
              latitude longitude remote_endpoint peer client server on found_it connected there
              parsed answered
              (subst (All (λ x. dlaws.is_regular x.date_of_birth ≡ true)) (sym same)
                (found-All (λ x. dlaws.is_regular x.date_of_birth) r regular match))
              short_asked short_reply sends request_comes reply_comes in
          (r, shows ∙ ap (λ xs. showed (map some xs)) same, match)
