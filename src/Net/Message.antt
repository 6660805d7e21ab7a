-- ===== src/Net/Message.antt =====
-- message.h: a message is a header of four octets, the body's length in network order, and a body.
use ppl_me.Common.{ℕ, ◌+◌, ◌*◌, ◌/◌, ◌%◌, ◌^◌, ◌<◌, ◌≡◌, refl, List, [], ◌∷◌, arith}
use ppl_me.Proto.{Endian, little, big, htonl}
use ppl_me.Proto.Dates.{htonl-htonl}

-- kMaxBodyLength
abbrev pub max_body_length : ℕ
max_body_length = 1048576

-- Message::Header; the stored word is in network order.
pub record Header : Type 0 where
  pub body_length : ℕ

unfoldable pub header : Endian → ℕ → Header
header e body_length = record { body_length = htonl e body_length }

-- Header::GetBodyLength
unfoldable pub get_body_length : Endian → Header → ℕ
get_body_length e h = htonl e h.body_length

pub record Message : Type 0 where
  pub header_of : Header
  pub body : List ℕ

-- Message(body, body_length); the body's buffer is the list of its octets.
unfoldable pub message : Endian → List ℕ → ℕ → Message
unfolding header
message e body body_length = record { header_of = header e body_length; body = body }

-- The octets of a word in the host's memory, which is how a header goes over the wire.
unfoldable pub word_octets : Endian → ℕ → List ℕ
word_octets little w = w % 2 ^ 8 ∷ w / 2 ^ 8 % 2 ^ 8 ∷ w / 2 ^ 16 % 2 ^ 8 ∷ w / 2 ^ 24 % 2 ^ 8 ∷ []
word_octets big w = w / 2 ^ 24 % 2 ^ 8 ∷ w / 2 ^ 16 % 2 ^ 8 ∷ w / 2 ^ 8 % 2 ^ 8 ∷ w % 2 ^ 8 ∷ []

-- The word that four octets make in the host's memory.
unfoldable pub word_of : Endian → ℕ → ℕ → ℕ → ℕ → ℕ
word_of little a b c d = a + b * 2 ^ 8 + c * 2 ^ 16 + d * 2 ^ 24
word_of big a b c d = d + c * 2 ^ 8 + b * 2 ^ 16 + a * 2 ^ 24

octets_cong :
    {a a' b b' c c' d d' : ℕ}
    → a ≡ a'
    → b ≡ b'
    → c ≡ c'
    → d ≡ d'
    → a ∷ b ∷ c ∷ d ∷ [] ≡ a' ∷ b' ∷ c' ∷ d' ∷ []
octets_cong p q r s i = p i ∷ q i ∷ r i ∷ s i ∷ []

-- On the wire the length stands with its highest octet first, whatever the host's byte order.
pub wire_octets :
    (e : Endian) (n : ℕ)
    → n < 2 ^ 32
    → word_octets e (header e n).body_length
      ≡ n / 2 ^ 24 % 2 ^ 8 ∷ n / 2 ^ 16 % 2 ^ 8 ∷ n / 2 ^ 8 % 2 ^ 8 ∷ n % 2 ^ 8 ∷ []
unfolding word_octets header
wire_octets little n h = octets_cong (omega arith) (omega arith) (omega arith) (omega arith)
wire_octets big n h = refl

-- A length read from the wire is the length that was sent, on hosts of any byte order.
pub get_body_length-wire :
    (e : Endian) (n : ℕ)
    → n < 2 ^ 32
    → get_body_length e (record {
      body_length =
          word_of e (n / 2 ^ 24 % 2 ^ 8) (n / 2 ^ 16 % 2 ^ 8) (n / 2 ^ 8 % 2 ^ 8) (n % 2 ^ 8);
    })
      ≡ n
unfolding get_body_length word_of
get_body_length-wire little n h = omega arith
get_body_length-wire big n h = omega arith

-- GetBodyLength of a new header
pub get_body_length-header : (e : Endian) (n : ℕ) → n < 2 ^ 32 → get_body_length e (header e n) ≡ n
unfolding get_body_length header
get_body_length-header e n h = htonl-htonl e n h
