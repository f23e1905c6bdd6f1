-- ===== src/Bedrock/Answer.antt =====
-- Which datagrams are answered, and with what.
use mathlib.Core.Option.{some-injective}
use vine.Base.{
  ℕ, true, [], ◌∷◌, Option, none, some, Text, text_eq, text_eq_iff, ◌≡◌, ◌↔◌, ◌⊎◌, inl, inr, refl,
  sym, ◌∙◌, ap, arith, Bool-cases, Option-cases,
}
use vine.Bedrock.{
  Serial, BedrockStatusHandler, build_advertisement_string, read_request, pong, answer,
  handle_packet,
}

-- A ping of either kind with the magic, and the pong that repeats its time.
pub record Answers (p : Serial) (h : BedrockStatusHandler) (datagram response : Text) : Type 0 where
  pub packet_id : ℕ
  pub payload : Text
  pub time : ℕ
  pub written : Text
  pub framed : datagram ≡ packet_id ∷ payload
  pub request :
      ((packet_id ≡ 0x01) × (p.read_ping payload ≡ some (time, p.offline_message_magic)))
      ⊎ ((packet_id ≡ 0x02) × (p.read_ping_open payload ≡ some (time, p.offline_message_magic)))
  pub pong_of : p.write_pong time h.server_guid (build_advertisement_string p h) ≡ some written
  pub answered : response ≡ 0x1c ∷ written

module _ (p : Serial) (h : BedrockStatusHandler) where
  read_request_iff :
      (packet_id : ℕ) (payload : Text) (r : ℕ × Text)
      → (read_request p packet_id payload ≡ some r) ↔ (
          ((packet_id ≡ 0x01) × (p.read_ping payload ≡ some r))
          ⊎ ((packet_id ≡ 0x02) × (p.read_ping_open payload ≡ some r)))
  unfolding read_request
  read_request_iff packet_id payload r = ground arith

  pong_iff :
      (time : ℕ) (response : Text)
      → (pong p h time ≡ some response) ↔ (
          (written : Text) × (p.write_pong time h.server_guid (build_advertisement_string p h)
            ≡ some written)
          × (response ≡ 0x1c ∷ written))
  unfolding pong
  pong_iff time response =
      elim (Option-cases (p.write_pong time h.server_guid (build_advertisement_string p h))) [
        | inl e ↦ rw e (λ q. absurd cc, λ (w, f, g). absurd cc)
        | inr (w, e) ↦ rw e (λ q. (w, refl, sym (some-injective _ _ q)), λ (v, f, g). cc)
      ]

  answer_iff :
      (o : Option (ℕ × Text)) (response : Text)
      → (answer p h o ≡ some response) ↔ (
          (time : ℕ) × (o ≡ some (time, p.offline_message_magic)) × (pong p h time ≡ some response))
  unfolding answer
  answer_iff none response = (λ q. absurd cc, λ (t, e, f). absurd cc)
  answer_iff (some (time, magic)) response =
      elim (Bool-cases (text_eq magic p.offline_message_magic)) [
        | inl e ↦
            let same = (text_eq_iff magic p.offline_message_magic).0 e in
            rw e (
              λ q. (time, ap (λ m. some (time, m)) same, q),
              λ (t, f, g). ap (pong p h) (ap (λ x. x.0) (some-injective _ _ f)) ∙ g,
            )
        | inr e ↦ rw e (
          λ q. absurd cc,
          λ (t, f, g). absurd (
              let same : magic ≡ p.offline_message_magic = ap (λ x. x.1) (some-injective _ _ f) in
              let yes : text_eq magic p.offline_message_magic ≡ true =
                (text_eq_iff magic p.offline_message_magic).1 same in
              cc),
        )
      ]

-- A datagram is answered exactly if it is a ping of one of the two kinds that can be read and holds
-- the magic, and the pong can be written; the answer is the pong with the ping's time, the server's
-- identity and its advertisement.
pub handle_packet_iff :
    (p : Serial) (h : BedrockStatusHandler) (datagram response : Text)
    → (handle_packet p h datagram ≡ some response) ↔ Answers p h datagram response
unfolding handle_packet
handle_packet_iff p h [] response = (λ q. absurd cc, λ a. absurd (let e = a.framed in cc))
handle_packet_iff p h (packet_id ∷ payload) response = (
  λ q.
      let (time, e, f) = (answer_iff p h (read_request p packet_id payload) response).0 q in
      let (written, g, k) = (pong_iff p h time response).0 f in
      record {
        packet_id = packet_id;
        payload = payload;
        time = time;
        written = written;
        framed = refl;
        request = (read_request_iff p h packet_id payload (time, p.offline_message_magic)).0 e;
        pong_of = g;
        answered = k;
      },
  λ a. (answer_iff p h (read_request p packet_id payload) response).1 (
    a.time,
    same_request a
        ∙ (read_request_iff p h a.packet_id a.payload (a.time, p.offline_message_magic)).1
            a.request,
    (pong_iff p h a.time response).1 (a.written, a.pong_of, a.answered),
  ),
)
  where
    same_request :
        (a : Answers p h (packet_id ∷ payload) response)
        → read_request p packet_id payload ≡ read_request p a.packet_id a.payload
    same_request a =
        let first : packet_id ≡ a.packet_id = (let e = a.framed in cc) in
        let behind : payload ≡ a.payload = (let e = a.framed in cc) in rw (first, behind) refl
