-- ===== src/Server/Store/Reconnect/Order.antt =====
-- apps/server/src/session-reconciliation.ts: the order in which a Machine learns what it is to do.
use odyshell.Base.{
  ℕ, ◌≤◌, Bool, true, false, some, List, [], ◌∷◌, ◌++◌, String, ◌≡◌, ◌≢◌, sym, inl, inr, arith,
  ◌==◌, any, All, All-map, Bool-cases, Option-cases,
}
use odyshell.Protocol.Session.{Session, Command}
use odyshell.Protocol.Messages.{
  ServerMessage, session_open, session_close, command_start, command_cancel, command_acknowledged,
}
use odyshell.Server.Store.{is_live}
use odyshell.Server.Store.Reconnect.{
  ReconnectState, opens, session_by_id, startable, starts, cancels, closes,
  session_reconnect_messages,
}

-- Sessions are opened first, then Commands started and cancelled, and at last Sessions closed.
abbrev pub rank : ServerMessage → ℕ
rank (session_open m) = 0
rank (command_start m) = 1
rank (command_cancel i) = 2
rank (session_close i r) = 3
rank (command_acknowledged i) = 4

abbrev pub IsOrdered : List ServerMessage → Type 0
IsOrdered [] = Unit
IsOrdered (m ∷ ms) = All (λ n. rank m ≤ rank n) ms × IsOrdered ms

abbrev pub opens_session : String → ServerMessage → Bool
opens_session i (session_open m) = m.session_id == i
opens_session i _ = false

-- A Command that is to start has its Session opened by one of the messages.
abbrev pub IsOpened : List ServerMessage → ServerMessage → Type 0
IsOpened ms (command_start c) = any (opens_session c.session_id) ms ≡ true
IsOpened ms _ = Unit

HasRank : ℕ → ServerMessage → Type 0
HasRank n m = rank m ≡ n

All-append :
    (P : ServerMessage → Type 0) (xs ys : List ServerMessage)
    → All P xs
    → All P ys
    → All P (xs ++ ys)
All-append P [] ys h k = k
All-append P (x ∷ xs) ys h k = (h.0, All-append P xs ys h.1 k)

append-IsOrdered :
    (n : ℕ) (xs ys : List ServerMessage)
    → All (HasRank n) xs
    → All (λ m. n ≤ rank m) ys
    → IsOrdered ys
    → IsOrdered (xs ++ ys)
unfolding HasRank
append-IsOrdered n [] ys at_n above h = h
append-IsOrdered n (x ∷ xs) ys at_n above h = (
  All-append (λ m. rank x ≤ rank m) xs ys
      (All-map (λ m. rank x ≤ rank m) xs (λ m (e : rank m ≡ n). let d = at_n.0 in omega arith)
        at_n.1)
      (All-map (λ m. rank x ≤ rank m) ys (λ m (e : n ≤ rank m). let d = at_n.0 in omega arith)
        above),
  append-IsOrdered n xs ys at_n.1 above h,
)

opens-HasRank : (ss : List Session) (now : ℕ) → All (HasRank 0) (opens ss now)
unfolding HasRank opens
opens-HasRank [] now = tt
opens-HasRank (s ∷ ss) now = let rest = opens-HasRank ss now in ground arith

starts-HasRank :
    (sessions : List Session) (cs : List Command) → All (HasRank 1) (starts sessions cs)
unfolding HasRank starts
starts-HasRank sessions [] = tt
starts-HasRank sessions (c ∷ cs) = let rest = starts-HasRank sessions cs in ground arith

cancels-HasRank : (cs : List Command) → All (HasRank 2) (cancels cs)
unfolding HasRank cancels
cancels-HasRank [] = tt
cancels-HasRank (c ∷ cs) = let rest = cancels-HasRank cs in ground arith

closes-HasRank : (ss : List Session) (now : ℕ) → All (HasRank 3) (closes ss now)
unfolding HasRank closes
closes-HasRank [] now = tt
closes-HasRank (s ∷ ss) now = let rest = closes-HasRank ss now in ground arith

above : (n k : ℕ) (ms : List ServerMessage) → k ≤ n → All (HasRank n) ms → All (λ m. k ≤ rank m) ms
unfolding HasRank
above n k ms less h = All-map (λ m. k ≤ rank m) ms (λ m (e : rank m ≡ n). omega arith) h

rank_IsOrdered : (n : ℕ) (ms : List ServerMessage) → All (HasRank n) ms → IsOrdered ms
unfolding HasRank
rank_IsOrdered n [] h = tt
rank_IsOrdered n (m ∷ ms) h = (
  All-map (λ k. rank m ≤ rank k) ms (λ k (e : rank k ≡ n). let d = h.0 in omega arith) h.1,
  rank_IsOrdered n ms h.1,
)

-- A Machine that connects again is told first which Sessions to open, then which Commands to start,
-- then which to cancel, and at last which Sessions to close.
pub session_reconnect_messages-IsOrdered :
    (state : ReconnectState) (now : ℕ) → IsOrdered (session_reconnect_messages state now)
unfolding session_reconnect_messages
session_reconnect_messages-IsOrdered state now =
    let a = opens state.sessions now in
    let b = starts state.sessions state.commands in
    let c = cancels state.commands in
    let d = closes state.sessions now in
    let at_b = starts-HasRank state.sessions state.commands in
    let at_c = cancels-HasRank state.commands in
    let at_d = closes-HasRank state.sessions now in
    append-IsOrdered 0 a (b ++ (c ++ d)) (opens-HasRank state.sessions now)
      (All-append (λ m. 0 ≤ rank m) b (c ++ d) (above 1 0 b (omega arith) at_b)
        (All-append (λ m. 0 ≤ rank m) c d (above 2 0 c (omega arith) at_c)
          (above 3 0 d (omega arith) at_d)))
      (append-IsOrdered 1 b (c ++ d) at_b
        (All-append (λ m. 1 ≤ rank m) c d (above 2 1 c (omega arith) at_c)
          (above 3 1 d (omega arith) at_d))
        (append-IsOrdered 2 c d at_c (above 3 2 d (omega arith) at_d) (rank_IsOrdered 3 d at_d)))

-- The Session that a search finds is opened, if it is live.
found_opens :
    (i : String) (ss : List Session) (now : ℕ) (s : Session)
    → session_by_id i ss ≡ some s
    → is_live s.status ≡ true
    → any (opens_session i) (opens ss now) ≡ true
unfolding session_by_id opens any
found_opens i [] now s e live = cc
found_opens i (t ∷ ts) now s e live = elim (Option-cases (session_by_id i ts)) [
  | inl missing ↦
      let here : (t.id == i) ≡ true = ground arith in
      let same : t ≡ s = ground arith in
      let live' : is_live t.status ≡ true = rw same live in ground arith
  | inr (u, at_u) ↦
      let same : u ≡ s = ground arith in
      let rest = found_opens i ts now s (rw (at_u, same)) live in ground arith
]

starts-IsOpened :
    (ss : List Session) (now : ℕ) (cs : List Command) → All (IsOpened (opens ss now)) (starts ss cs)
unfolding starts
starts-IsOpened ss now [] = tt
starts-IsOpened ss now (c ∷ cs) =
    let rest = starts-IsOpened ss now cs in
    elim (Option-cases (session_by_id c.session_id ss)) [
      | inl missing ↦ rw missing rest
      | inr (s, at_s) ↦ elim (Bool-cases (startable (some s) c)) [
        | inl goes ↦ rw (at_s, goes) (found_opens c.session_id ss now s at_s (ground arith), rest)
        | inr stays ↦ rw (at_s, stays) rest
      ]
    ]

any-append :
    (p : ServerMessage → Bool) (xs ys : List ServerMessage)
    → any p xs ≡ true
    → any p (xs ++ ys) ≡ true
unfolding any
any-append p [] ys h = cc
any-append p (x ∷ xs) ys h = ground (arith, any-append p xs ys)

more_IsOpened :
    (xs ys : List ServerMessage) (m : ServerMessage) → IsOpened xs m → IsOpened (xs ++ ys) m
more_IsOpened xs ys (session_open m) h = tt
more_IsOpened xs ys (command_start c) h = any-append (opens_session c.session_id) xs ys h
more_IsOpened xs ys (command_cancel i) h = tt
more_IsOpened xs ys (session_close i r) h = tt
more_IsOpened xs ys (command_acknowledged i) h = tt

-- Only a start asks for anything.
others_IsOpened :
    (all : List ServerMessage) (n : ℕ) (ms : List ServerMessage)
    → n ≢ 1
    → All (HasRank n) ms
    → All (IsOpened all) ms
unfolding HasRank
others_IsOpened all n ms other h = All-map (IsOpened all) ms one h
  where
    one : (m : ServerMessage) → rank m ≡ n → IsOpened all m
    one (session_open m) e = tt
    one (command_start c) e = elim (other (sym e)) [ ]
    one (command_cancel i) e = tt
    one (session_close i r) e = tt
    one (command_acknowledged i) e = tt

-- A Machine that connects again is told to start a Command only if the same messages open the
-- Command's Session.
pub session_reconnect_messages-IsOpened :
    (state : ReconnectState) (now : ℕ)
    → let messages = session_reconnect_messages state now in All (IsOpened messages) messages
unfolding session_reconnect_messages
session_reconnect_messages-IsOpened state now =
    let a = opens state.sessions now in
    let b = starts state.sessions state.commands in
    let c = cancels state.commands in
    let d = closes state.sessions now in
    let all = a ++ (b ++ (c ++ d)) in
    All-append (IsOpened all) a (b ++ (c ++ d))
      (others_IsOpened all 0 a (omega arith) (opens-HasRank state.sessions now))
      (All-append (IsOpened all) b (c ++ d)
        (All-map (IsOpened all) b (λ m opened. more_IsOpened a (b ++ (c ++ d)) m opened)
          (starts-IsOpened state.sessions now state.commands))
        (All-append (IsOpened all) c d
          (others_IsOpened all 2 c (omega arith) (cancels-HasRank state.commands))
          (others_IsOpened all 3 d (omega arith) (closes-HasRank state.sessions now))))
