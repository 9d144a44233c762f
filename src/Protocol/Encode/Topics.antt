-- ===== src/Protocol/Encode/Topics.antt =====
-- raiot-protocol/src/iot_codec.rs: the topics of encoded messages, and when a message is encoded.
use raiot_rs.Base.{
  ℕ, ◌≡◌, ◌≢◌, refl, ap, ap₂, ◌∙◌, [], ◌∷◌, ◌++◌, map, true, false, arith, append-nil,
}
use raiot_rs.Protocol.Text.{Text, codes, split}
use raiot_rs.Protocol.Messages.{PropertyBag}
use raiot_rs.Protocol.Mqtt.{Crates}
use raiot_rs.Protocol.Decode.Cloud.{Without, split-append, split_one}
use raiot_rs.Protocol.Encode.{property_bag}

pub Without-append : (sep : ℕ) (s t : Text) → Without sep s → Without sep t → Without sep (s ++ t)
Without-append sep [] t h k = k
Without-append sep (c ∷ s) t (ne, h) k = (ne, Without-append sep s t h k)

module _ {J M : Type 0} (crates : Crates J M) where
  open crates use {percent_encode}

  -- What percent encoding promises: no reserved character is left.
  abbrev pub Encodes : Type 0
  Encodes =
      (t : Text)
      → Without b'&' (percent_encode t)
        × Without b'=' (percent_encode t)
        × Without b'#' (percent_encode t)
        × Without b'+' (percent_encode t)

  abbrev pair_text : Text × Text → Text
  pair_text (k, v) = percent_encode k ++ (codes "=" ++ percent_encode v)

  pair_plain :
      (sep : ℕ) (k v : Text)
      → Without sep (percent_encode k)
      → Without sep (percent_encode v)
      → b'=' ≢ sep
      → Without sep (pair_text (k, v))
  pair_plain sep k v hk hv ne =
      Without-append sep (percent_encode k) (b'=' ∷ percent_encode v) hk (ne, hv)

  split_bag_from :
      (enc : Encodes) (p : Text) (headers : PropertyBag)
      → Without b'&' p
      → split b'&' (p ++ property_bag crates false headers) ≡ p ∷ map pair_text headers
  unfolding property_bag
  split_bag_from enc p [] h = rw append-nil (split_one b'&' p h)
  split_bag_from enc p ((k, v) ∷ headers) h =
      split-append b'&' p (pair_text (k, v) ++ property_bag crates false headers) h
      ∙ ap (◌∷◌ p) (
          split_bag_from enc (pair_text (k, v)) headers
            (pair_plain b'&' k v (enc k).0 (enc v).0 (omega arith)))

  split_pairs :
      (enc : Encodes) (headers : PropertyBag)
      → map (split b'=') (map pair_text headers)
        ≡ map (λ (h : Text × Text). percent_encode h.0 ∷ percent_encode h.1 ∷ []) headers
  split_pairs enc [] = refl
  split_pairs enc ((k, v) ∷ headers) =
      ap₂ ◌∷◌
        (split-append b'=' (percent_encode k) (percent_encode v) (enc k).1
          ∙ ap (◌∷◌ (percent_encode k)) (split_one b'=' (percent_encode v) (enc v).1))
        (split_pairs enc headers)

  -- The property bag of a telemetry topic can be read back: cut at each `&`, and each piece at `=`, it
  -- gives the encoded key and value of every header, in order, if percent encoding leaves neither.
  pub split-property_bag :
      (key value : Text) (headers : PropertyBag)
      → Encodes
      → map (split b'=') (split b'&' (property_bag crates true ((key, value) ∷ headers)))
        ≡ map
            (λ (h : Text × Text). percent_encode h.0 ∷ percent_encode h.1 ∷ [])
            ((key, value) ∷ headers)
  unfolding property_bag
  split-property_bag key value headers enc =
      ap (map (split b'=')) (
        split_bag_from enc (pair_text (key, value)) headers
          (pair_plain b'&' key value (enc key).0 (enc value).0 (omega arith)))
      ∙ split_pairs enc ((key, value) ∷ headers)
