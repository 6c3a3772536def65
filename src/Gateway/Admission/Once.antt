-- ===== src/Gateway/Admission/Once.antt =====
-- internal/gateway/gateway.go: a message is admitted once, whatever comes between it and its copy.
use go_tiny_claw.Base.{
  some, ap, ◌∙◌, ℕ, suc, ◌+◌, ◌<◌, false, List, [], ◌∷◌, Text, is_empty, text_eq, ok, All, length,
  lookup, ◌≡◌, ◌≢◌, ◌⊎◌, inl, inr, refl, sym, arith, subst,
}
use go_tiny_claw.Channel.{InboundMessage}
use go_tiny_claw.Gateway.Dedup.{
  Seen, dedup_key, seen_ttl, max_seen_messages, seen_contains, remember,
}
use go_tiny_claw.Gateway.Dedup.Laws.{IsMap}
use go_tiny_claw.Gateway.Dedup.Lasting.{Lasts, remember-Lasts, remember-Lasts_now}
use go_tiny_claw.Gateway.Admission.{
  Gateway, Surroundings, Outcome, dropped, accepted, admit, receive,
}
use go_tiny_claw.Gateway.Admission.Laws.{remembered, duplicate_ignored}

-- The calls of `Receive`, the first of the list first.
unfoldable pub receive_all : Gateway → List (Surroundings × InboundMessage) → Gateway
receive_all g [] = g
receive_all g ((env, msg) ∷ rest) = receive_all (receive g env msg).1 rest

-- What a call does to the table of keys.
receive_seen :
    (g : Gateway) (env : Surroundings) (msg : InboundMessage)
    → ((receive g env msg).1.seen ≡ g.seen)
      ⊎ (((receive g env msg).1.seen ≡ remember g.seen (dedup_key msg) env.now)
          × (seen_contains g.seen (dedup_key msg) env.now ≡ false))
unfolding receive admit
receive_seen g env msg = ground arith

dedup_key_filled : (msg : InboundMessage) → is_empty (dedup_key msg) ≡ false
unfolding dedup_key
dedup_key_filled msg = refl

Lasts-suc : (key : Text) (t n : ℕ) (seen : Seen) → Lasts key t n seen → Lasts key t (suc n) seen
Lasts-suc key t n seen (at, m, apart, few) = (at, m, apart, omega (arith, few))

receive-Lasts :
    (g : Gateway) (env : Surroundings) (msg : InboundMessage) (key : Text) (t n : ℕ)
    → Lasts key t n g.seen
    → t < env.now
    → env.now < t + seen_ttl
    → n + 1 < max_seen_messages
    → Lasts key t (suc n) (receive g env msg).1.seen
unfolding seen_contains
receive-Lasts g env msg key t n h later soon room = elim (receive_seen g env msg) [
  | inl e ↦ subst (Lasts key t (suc n)) (sym e) (Lasts-suc key t n g.seen h)
  | inr (e, new) ↦
      let ne : dedup_key msg ≢ key = λ same.
        let at : lookup g.seen (dedup_key msg) ≡ some t = ap (lookup g.seen) same ∙ h.0 in
        ground arith in
      subst (Lasts key t (suc n)) (sym e) (
        remember-Lasts key (dedup_key msg) t n env.now g.seen h ne (dedup_key_filled msg) later
          room)
]

receive_all-Lasts :
    (g : Gateway) (rest : List (Surroundings × InboundMessage)) (key : Text) (t n : ℕ)
    → Lasts key t n g.seen
    → All (λ e. (t < e.0.now) × (e.0.now < t + seen_ttl)) rest
    → n + length rest < max_seen_messages
    → Lasts key t (n + length rest) (receive_all g rest).seen
unfolding receive_all
receive_all-Lasts g [] key t n h times room =
    subst (λ x. Lasts key t x g.seen) {x = n} {y = n + 0} (omega arith) h
receive_all-Lasts g ((env, msg) ∷ rest) key t n h (times, more) room =
    subst (λ x. Lasts key t x (receive_all (receive g env msg).1 rest).seen)
      {x = suc n + length rest} {y = n + suc (length rest)} (omega arith)
      (receive_all-Lasts (receive g env msg).1 rest key t (suc n)
        (receive-Lasts g env msg key t n h times.0 times.1 (omega (arith, room))) more
        (omega (arith, room)))

-- Once a message was accepted or obeyed, a message with the same key that comes within 24 hours changes
-- nothing and is not accepted again, if fewer than 4096 other calls of `Receive` come in between, each
-- later than the acceptance and within the 24 hours. (The table had each key once, no empty one, and all
-- from before the acceptance. It holds 4096 keys, so more calls could push the key out.)
pub receive_once :
    (g : Gateway) (env env' : Surroundings) (msg copy : InboundMessage) (o : Outcome)
    (between : List (Surroundings × InboundMessage))
    → IsMap g.seen
    → All (λ e. (is_empty e.0 ≡ false) × (e.1 < env.now)) g.seen
    → (receive g env msg).0 ≡ ok o
    → o ≢ dropped
    → All (λ e. (env.now < e.0.now) × (e.0.now < env.now + seen_ttl)) between
    → length between < max_seen_messages
    → dedup_key copy ≡ dedup_key msg
    → env'.now < env.now + seen_ttl
    → let g' = receive_all (receive g env msg).1 between in
      ((receive g' env' copy).1 ≡ g') × ((i : ℕ) → (receive g' env' copy).0 ≢ ok (accepted i))
unfolding seen_contains
receive_once g env env' msg copy o between m old h ne times few same soon =
    let key = dedup_key msg in
    let first : Lasts key env.now 0 (receive g env msg).1.seen =
      subst (Lasts key env.now 0) (sym (remembered g env msg o h ne))
        (remember-Lasts_now key env.now g.seen m old (dedup_key_filled msg)) in
    let last =
      receive_all-Lasts (receive g env msg).1 between key env.now 0 first times
        (omega (arith, few)) in
    let g' = receive_all (receive g env msg).1 between in
    let at : lookup g'.seen (dedup_key copy) ≡ some env.now = ap (lookup g'.seen) same ∙ last.0 in
    duplicate_ignored g' env' copy (ground (arith, at))
