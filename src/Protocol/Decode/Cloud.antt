-- ===== src/Protocol/Decode/Cloud.antt =====
-- raiot-protocol/src/iot_codec.rs: cloud-to-device messages, whose topic names the device and holds
-- the properties.
use raiot_rs.Base.{ℕ, ◌≡◌, ◌≢◌, refl, [], ◌∷◌, ◌++◌, arith}
use raiot_rs.Protocol.Text.{Text, codes, split}
use raiot_rs.Protocol.Errors.{◌>>=◌}

abbrev pub Without : ℕ → Text → Type 0
Without sep [] = Unit {0}
Without sep (c ∷ t) = (c ≢ sep) × Without sep t

-- Splitting takes a text without separators off the front as one piece.
pub split-append :
    (sep : ℕ) (s t : Text) → Without sep s → split sep (s ++ (sep ∷ t)) ≡ s ∷ split sep t
unfolding split
split-append sep [] t h = ground arith
split-append sep (c ∷ s) t (ne, h) = ground (arith, split-append sep s t h)

pub split_one : (sep : ℕ) (s : Text) → Without sep s → split sep s ≡ s ∷ []
unfolding split
split_one sep [] h = refl
split_one sep (c ∷ s) (ne, h) = ground (arith, split_one sep s h)

abbrev pub c2d_topic : Text → Text → Text
c2d_topic id bag = codes "devices/" ++ (id ++ (codes "/messages/devicebound/" ++ bag))
