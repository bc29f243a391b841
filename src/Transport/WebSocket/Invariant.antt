-- ===== src/Transport/WebSocket/Invariant.antt =====
-- The parts of a connection's steps: a connection is open, or it has ended once and for all.
pub mod Listeners
pub mod Steps
use cavi_api_client.Base.{
  ℕ, zero, suc, ◌+◌, ◌≤◌, ◌⊎◌, inl, inr, ◌≡◌, refl, Bool, true, false, not, ◌&&◌, ◌||◌, Option,
  none, some, List, [], ◌∷◌, if◌then◌else◌, Result, ok, err, arith, Bool-cases, leb, ◌==◌, All,
}
use cavi_api_client.Base.Number.{Number, whole}
use cavi_api_client.Transport.Backoff.{Delay, PolicyError, validate_retry_policy}
use cavi_api_client.Transport.Attempts.{past_deadline, connect, decode}
use cavi_api_client.Transport.Lifecycle.{
  LifecycleEvent, closings, is_closed, closed, retrying, connecting, event_of,
}
use cavi_api_client.Transport.WebSocket.{
  Connection, Config, SocketError, Waiting, nothing, resolving, sleeping, Ready, unsettled,
  resolved, rejected, tell, is_current, finish, close_socket, fail_decode, attach, attach_or_fail,
  start, start_with, reconnect_after, handle_close, disconnect, emit, failure, connection_failed,
  closed_error, decoding_failed,
}

abbrev pub sleeps : Waiting → ℕ
sleeps nothing = 0
sleeps resolving = 0
sleeps (sleeping code) = 1

abbrev pub is_settled : Ready → Bool
is_settled unsettled = false
is_settled resolved = true
is_settled (rejected e) = true

-- What the promise `ready` is while the connection is open.
abbrev pub ready_if : Bool → Ready
ready_if true = resolved
ready_if false = unsettled

-- The attempts are within the policy, with one to come after a sleep.
pub record Open {D V : Type 0} (top : ℕ) (s : Connection D V) : Type 0 where
  pub not_terminal : s.terminal ≡ false
  pub not_aborted : s.aborted ≡ false
  pub no_error : s.close_error ≡ none
  pub none_told : s.told ≡ []
  pub not_closed : closings (s.emitted) ≡ 0
  pub within : s.attempt + sleeps (s.waiting) ≤ top
  pub promise : s.ready ≡ ready_if (s.opened)

abbrev pub Told : Option SocketError → ℕ × Option SocketError → Type 0
Told e (listener, told) = told ≡ e

pub record Closed {D V : Type 0} (top : ℕ) (s : Connection D V) : Type 0 where
  pub is_terminal : s.terminal ≡ true
  pub was_aborted : s.aborted ≡ true
  pub deaf : s.listening ≡ false
  pub no_listeners : s.listeners ≡ []
  pub no_close_listeners : s.close_listeners ≡ []
  pub all_told : All (Told (s.close_error)) (s.told)
  pub closed_once : closings (s.emitted) ≡ 1
  pub within : s.attempt ≤ top
  pub promise : is_settled (s.ready) ≡ true

abbrev pub Valid : {D V : Type 0} → ℕ → Connection D V → Type 0
Valid top s = Open top s ⊎ Closed top s

tell-All :
    (e : Option SocketError) (ls : List ℕ) (told : List (ℕ × Option SocketError))
    → All (Told e) told
    → All (Told e) (tell ls e told)
tell-All e [] told h = h
tell-All e (l ∷ ls) told h = tell-All e ls ((l, e) ∷ told) (refl, h)

module _ {D V : Type 0} (top : ℕ) where
  pub finish-Closed :
      (e : Option SocketError) (s : Connection D V) → Open top s → Closed top (finish e s)
  unfolding finish
  finish-Closed e s o =
      let before : All (Told e) (s.told) = rw (o.none_told) tt in
      let after = tell-All e (s.close_listeners) (s.told) before in ground arith

  pub finish-Valid :
      (e : Option SocketError) (s : Connection D V) → Open top s → Valid top (finish e s)
  finish-Valid e s o = inr (finish-Closed e s o)

  pub close_socket-Open : (s : Connection D V) → Open top s → Open top (close_socket s)
  unfolding close_socket
  close_socket-Open s o = ground arith

  -- A guard that leaves a connection as it is, and that a closed one does not pass.
  pub guarded-Valid :
      (stay : Bool) (s later : Connection D V)
      → Valid top s
      → (Closed top s → stay ≡ true)
      → (Open top s → stay ≡ false → Valid top later)
      → Valid top (if stay then s else later)
  guarded-Valid true s later v stays k = v
  guarded-Valid false s later (inl o) stays k = k o refl
  guarded-Valid false s later (inr c) stays k = let no_way = stays c in ground arith

  pub fail_decode-Valid : (i : ℕ) (s : Connection D V) → Valid top s → Valid top (fail_decode i s)
  unfolding fail_decode
  fail_decode-Valid i s v =
      guarded-Valid (s.terminal || not (is_current i (s.socket))) s _ v (λ c. ground arith)
        (λ o h.
          finish-Valid (some (failure decoding_failed decode none (s.attempt))) (close_socket s)
            (close_socket-Open s o))

  pub attach_or_fail-Valid :
      (made : Bool) (s : Connection D V) → Open top s → Valid top (attach_or_fail made s)
  unfolding attach_or_fail attach
  attach_or_fail-Valid true s o = inl (ground arith)
  attach_or_fail-Valid false s o =
      finish-Valid (some (failure connection_failed connect none (s.attempt))) s o

  emit-Open :
      (e : LifecycleEvent) (s : Connection D V)
      → is_closed (e.state) ≡ false
      → Open top s
      → Open top (emit e s)
  emit-Open e s h o = ground arith

  resolving-Open : (s : Connection D V) → Open top s → Open top (record s { waiting = resolving })
  resolving-Open s o = ground arith

  start_with-Valid :
      (immediate made : Bool) (s : Connection D V)
      → Open top s
      → Valid top (start_with immediate made s)
  unfolding start_with
  start_with-Valid true made s o = attach_or_fail-Valid made s o
  start_with-Valid false made s o = inl (resolving-Open s o)

  pub start-Valid :
      (c : Config D V) (made : Bool) (s : Connection D V) → Open top s → Valid top (start c made s)
  unfolding start
  start-Valid c made s o =
      start_with-Valid (c.immediate) made (emit (event_of connecting (s.attempt)) s)
        (emit-Open _ s refl o)

  reconnect_after-Valid :
      (c : Config D V) (code now : ℕ) (delay : Result PolicyError Delay) (s : Connection D V)
      → suc (s.attempt) ≤ top
      → Open top s
      → Valid top (reconnect_after c code now delay s)
  unfolding reconnect_after
  reconnect_after-Valid c code now (err e) s more o = inl o
  reconnect_after-Valid c code now (ok delay) s more o =
      elim (Bool-cases (past_deadline (c.policy.deadline_ms) (c.started_at) now delay)) [
        | inl late ↦ rw late (finish-Valid (some (closed_error code (s.attempt))) s o)
        | inr early ↦ rw early (inl (ground arith))
      ]

  off-Open : (s : Connection D V) → Open top s → Open top (record s { listening = false })
  off-Open s o = ground arith

  handled-Open :
      (s : Connection D V) → Open top s → Open top (record s { disconnect_handled = true })
  handled-Open s o = ground arith

  handle_close-Valid :
      (c : Config D V) (code : ℕ) (clean : Bool) (random : Number) (now : ℕ) (s : Connection D V)
      → whole (c.policy.max_attempts) ≡ top
      → Valid top s
      → Valid top (handle_close c code clean random now s)
  unfolding handle_close
  handle_close-Valid c code clean random now s e v =
      guarded-Valid (s.terminal) s _ v (λ ended. ended.is_terminal)
        (λ o going.
          elim (Bool-cases
            (clean || code == 1000 || leb (whole (c.policy.max_attempts)) (s.attempt))) [
              | inl over ↦ rw over (
                  finish-Valid (some (closed_error code (s.attempt)))
                    (record s { listening = false }) (off-Open s o))
              | inr again ↦ rw again (
                  reconnect_after-Valid c code now _ (record s { listening = false }) (ground arith)
                    (off-Open s o))
            ])

  pub disconnect-Valid :
      (c : Config D V) (i code : ℕ) (clean : Bool) (random : Number) (now : ℕ) (s : Connection D V)
      → whole (c.policy.max_attempts) ≡ top
      → Valid top s
      → Valid top (disconnect c i code clean random now s)
  unfolding disconnect
  disconnect-Valid c i code clean random now s e v =
      guarded-Valid (s.disconnect_handled || s.terminal || not (is_current i (s.socket))) s _ v
        (λ ended. ground arith)
        (λ o h.
          handle_close-Valid c code clean random now (record s { disconnect_handled = true }) e
            (inl (handled-Open s o)))
