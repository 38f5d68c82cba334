-- ===== src/Fence/Tokens.antt =====
-- A GS ( H fence is signalled by its own token and by nothing else.
use printer_driver.Base.{
  Bytes, Bool, true, false, Option, none, some, List, [], ◌∷◌, ◌++◌, if◌then◌else◌, if_holds, ◌≡◌,
  ◌↔◌, refl, sym, ap, ◌∙◌, arith,
}
use mathlib.Core.List.{append_assoc, append-nil}
use mathlib.Core.Path.{subst}
use printer_driver.Engine.{signalled}
use printer_driver.Fence.{CustomMatch, matched, not_mine, need_more, Io}
use printer_driver.Fence.Dispatch.{
  is_ours, merge_status, on_event, on_events, on_match, ask_matcher, on_star_bytes, on_escpos_bytes,
  on_bytes, receive,
}
use printer_driver.Fence.Waits.{begin_job_io, outcome, contains, await_token}
use printer_driver.Parser.{ParsedEvent, gs_h_ack, feed, ResponseParser}
use printer_driver.Parser.Chunks.{feed-append}
use printer_driver.Parser
use printer_driver.Types.{DeviceEvent}

-- The acknowledged tokens that this driver issued.
unfoldable pub own_acks : Bytes → List ParsedEvent → List Bytes
own_acks nonce [] = []
own_acks nonce (gs_h_ack token ∷ es) =
    let rest = own_acks nonce es in if is_ours nonce token then token ∷ rest else rest
own_acks nonce (ParsedEvent.asb_status frame flags ∷ es) = own_acks nonce es
own_acks nonce (ParsedEvent.realtime_status byte kind flags ∷ es) = own_acks nonce es
own_acks nonce (ParsedEvent.queued_status byte ∷ es) = own_acks nonce es
own_acks nonce (ParsedEvent.unknown_byte byte ∷ es) = own_acks nonce es

own_acks-append :
    (nonce : Bytes) (es fs : List ParsedEvent)
    → own_acks nonce (es ++ fs) ≡ own_acks nonce es ++ own_acks nonce fs
unfolding own_acks
own_acks-append nonce [] fs = refl
own_acks-append nonce (gs_h_ack token ∷ es) fs = ground (arith, own_acks-append nonce es fs)
own_acks-append nonce (ParsedEvent.asb_status frame flags ∷ es) fs = own_acks-append nonce es fs
own_acks-append nonce (ParsedEvent.realtime_status byte kind flags ∷ es) fs =
    own_acks-append nonce es fs
own_acks-append nonce (ParsedEvent.queued_status byte ∷ es) fs = own_acks-append nonce es fs
own_acks-append nonce (ParsedEvent.unknown_byte byte ∷ es) fs = own_acks-append nonce es fs

-- What the reading of bytes leaves as it is, and the tokens that it adds.
Adds : List Bytes → Io → Io → Type 0
Adds tokens io after =
    (after.gsh_tokens ≡ io.gsh_tokens ++ tokens)
    × ((after.parser ≡ io.parser) × (after.star_mode ≡ io.star_mode))

-- An acknowledgement, ours or not, before other events.
ack-Adds :
    (ours : Bool) (nonce token : Bytes) (ts : List Bytes) (es : List ParsedEvent) (io : Io)
    → ((x : Io) → Adds ts x (on_events nonce es x).0)
    → let r : Io × List DeviceEvent =
        if ours
        then (record io { gsh_tokens = io.gsh_tokens ++ (token ∷ []) }, [])
        else (io, DeviceEvent.foreign_writer_detected ∷ []) in
      Adds (if ours then token ∷ ts else ts) io (on_events nonce es r.0).0
unfolding Adds
ack-Adds true nonce token ts es io h =
    let (tokens, kept) = h (record io { gsh_tokens = io.gsh_tokens ++ (token ∷ []) }) in
    (tokens ∙ append_assoc io.gsh_tokens (token ∷ []) ts, kept)
ack-Adds false nonce token ts es io h = h io

on_events-Adds :
    (nonce : Bytes) (es : List ParsedEvent) (io : Io)
    → Adds (own_acks nonce es) io (on_events nonce es io).0
unfolding Adds on_events on_event own_acks merge_status
on_events-Adds nonce [] io = (sym (append-nil io.gsh_tokens), (refl, refl))
on_events-Adds nonce (gs_h_ack token ∷ es) io =
    ack-Adds (is_ours nonce token) nonce token (own_acks nonce es) es io (on_events-Adds nonce es)
on_events-Adds nonce (ParsedEvent.asb_status frame flags ∷ es) io = on_events-Adds nonce es _
on_events-Adds nonce (ParsedEvent.realtime_status byte kind flags ∷ es) io =
    on_events-Adds nonce es _
on_events-Adds nonce (ParsedEvent.queued_status byte ∷ es) io = on_events-Adds nonce es _
on_events-Adds nonce (ParsedEvent.unknown_byte byte ∷ es) io = on_events-Adds nonce es _

Keeps : Io → Io → Type 0
Keeps io after =
    (after.gsh_tokens ≡ io.gsh_tokens)
    × ((after.parser ≡ io.parser) × (after.star_mode ≡ io.star_mode))

on_match-Keeps : (nonce : Bytes) (m : CustomMatch) (io : Io) → Keeps io (on_match nonce m io).0
unfolding Keeps on_match
on_match-Keeps nonce (matched token) io =
    if_holds (λ (r : Io × List DeviceEvent). Keeps io r.0) (is_ours nonce token) _ _
      (λ ours. (refl, (refl, refl))) (λ theirs. (refl, (refl, refl)))
on_match-Keeps nonce not_mine io = (refl, (refl, refl))
on_match-Keeps nonce need_more io = (refl, (refl, refl))

ask_matcher-Keeps :
    (nonce : Bytes) (method : Option (Bytes → CustomMatch)) (bytes : Bytes) (io : Io)
    → Keeps io (ask_matcher nonce method bytes io).0
unfolding Keeps ask_matcher
ask_matcher-Keeps nonce none bytes io = (refl, (refl, refl))
ask_matcher-Keeps nonce (some matcher) bytes io =
    if_holds (λ (r : Io × List DeviceEvent). Keeps io r.0) io.custom_fence_outstanding _ _
      (λ out.
        on_match-Keeps nonce (matcher (io.custom_rx ++ bytes))
          (record io { custom_rx = io.custom_rx ++ bytes }))
      (λ idle. (refl, (refl, refl)))

-- A chunk, when the printer speaks ESC/POS.
on_bytes-Adds :
    (nonce bytes : Bytes) (io : Io)
    → io.star_mode ≡ false
    → let after = (on_bytes nonce bytes io).0 in
      (after.gsh_tokens ≡ io.gsh_tokens ++ own_acks nonce (feed io.parser bytes).1)
      × ((after.parser ≡ (feed io.parser bytes).0) × (after.star_mode ≡ false))
unfolding on_bytes on_escpos_bytes Adds Keeps
on_bytes-Adds nonce bytes io escpos =
    let fed = feed io.parser bytes in
    let start = record io { parser = fed.0 } in
    let read = (on_events nonce fed.1 start).0 in
    let added = on_events-Adds nonce fed.1 start in
    let kept = ask_matcher-Keeps nonce read.custom_method bytes read in
    if_holds
      (λ (r : Io × List DeviceEvent).
        (r.0.gsh_tokens ≡ io.gsh_tokens ++ own_acks nonce fed.1)
        × ((r.0.parser ≡ fed.0) × (r.0.star_mode ≡ false)))
      io.star_mode (on_star_bytes bytes io) (on_escpos_bytes nonce bytes io)
      (λ star. absurd (ground (arith, star, escpos)))
      (λ other. (kept.0 ∙ added.0, (kept.1.0 ∙ added.1.0, kept.1.1 ∙ added.1.1 ∙ escpos)))

abbrev flatten : List Bytes → Bytes
flatten [] = []
flatten (chunk ∷ chunks) = chunk ++ flatten chunks

receive-Adds :
    (nonce chunk : Bytes) (chunks : List Bytes) (io : Io)
    → io.star_mode ≡ false
    → (receive nonce (chunk ∷ chunks) io).gsh_tokens
      ≡ io.gsh_tokens ++ own_acks nonce (feed io.parser (flatten (chunk ∷ chunks))).1
unfolding receive
receive-Adds nonce chunk [] io escpos =
    (on_bytes-Adds nonce chunk io escpos).0
    ∙ ap (λ b. io.gsh_tokens ++ own_acks nonce (feed io.parser b).1) (sym (append-nil chunk))
receive-Adds nonce chunk (c ∷ cs) io escpos =
    let after = (on_bytes nonce chunk io).0 in
    let (tokens, (parser, mode)) = on_bytes-Adds nonce chunk io escpos in
    let (q, es) = feed io.parser chunk in
    let rest = flatten (c ∷ cs) in
    receive-Adds nonce c cs after mode
    ∙ ap (λ l. l ++ own_acks nonce (feed after.parser rest).1) tokens
    ∙ ap (λ r. (io.gsh_tokens ++ own_acks nonce es) ++ own_acks nonce (feed r rest).1) parser
    ∙ append_assoc io.gsh_tokens (own_acks nonce es) (own_acks nonce (feed q rest).1)
    ∙ ap (λ l. io.gsh_tokens ++ l)
        (sym (own_acks-append nonce es (feed q rest).1)
          ∙ ap (λ (r : ResponseParser × List ParsedEvent). own_acks nonce r.1)
              (sym (feed-append io.parser chunk rest)))

outcome-signalled :
    (answered down stopping : Bool)
    → (outcome answered down stopping ≡ signalled) ↔ (answered ≡ true)
unfolding outcome
outcome-signalled answered down stopping = ground arith

-- From the start of a job on, however the bytes from the printer are cut into chunks, the wait for a token
-- ends signalled if and only if the stream has a whole acknowledgement frame with that token in it, and
-- the token is one that this driver issued.
pub await_token_iff :
    (nonce token : Bytes) (chunks : List Bytes) (stopping : Bool) (io : Io)
    → (await_token token stopping (receive nonce chunks (begin_job_io io)) ≡ signalled)
      ↔ (contains token (own_acks nonce (feed (Parser.reset io.parser) (flatten chunks)).1) ≡ true)
unfolding await_token begin_job_io receive contains own_acks feed Parser.drain Parser.drain_fuel
    Parser.reset
await_token_iff nonce token [] stopping io =
    outcome-signalled (contains token []) (begin_job_io io).link_down stopping
await_token_iff nonce token (chunk ∷ chunks) stopping io =
    let after = receive nonce (chunk ∷ chunks) (begin_job_io io) in
    subst (λ ts. (await_token token stopping after ≡ signalled) ↔ (contains token ts ≡ true))
      (receive-Adds nonce chunk chunks (begin_job_io io) refl)
      (outcome-signalled (contains token after.gsh_tokens) after.link_down stopping)
