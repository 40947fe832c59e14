-- ===== src/Sock/Quiet.antt =====
-- Which states the functions change: none, or that of one socket.
use mathlib.Core.Option
use mathlib.Core.Option.{some-injective}
use network_lab.Base.{
  ℕ, ap, refl, sym, ◌∙◌, ◌%◌, ◌^◌, true, ◌+◌, ◌≡◌, ◌>>=◌, List, [], Bool, Option, some, arith, ◌==◌,
  ◌&&◌, if◌then◌else◌, Bool-cases, inl, inr, bind-some,
}
use network_lab.Segment.{Segment, tcp_fin, tcp_syn, tcp_psh, tcp_ack, has_flag}
use network_lab.Tcp.{TcpCb}
use network_lab.Sock.{
  TcpState, syn_recv, established, close_wait, time_wait, Sock, Stack, put, tcp_set_state,
  tcp_sock_inc_ref_cnt,
}
use network_lab.Sock.Table.{tcp_hash, link_hash, hash_listen, hash_established}
use network_lab.Sock.Queue.{detach, tcp_sock_accept_enqueue}
use network_lab.Sock.Timer.{tcp_set_timewait_timer}
use network_lab.Sock.Input.{
  send_control, tcp_update_window, add_child, tcp_state_listen, tcp_state_syn_sent, establish,
  receive_fin, receive_data, tcp_state_syn_recv, wake_parent, enter_time_wait, process_established,
}

abbrev pub state_of : Stack → ℕ → Option TcpState
state_of st i = Option.map (λ (s : Sock). s.state) (st.socks i)

abbrev pub Quiet : Stack → Stack → Type 0
Quiet st st' = (j : ℕ) → state_of st' j ≡ state_of st j

put-Quiet :
    (st : Stack) (i : ℕ) (tsk new : Sock)
    → st.socks i ≡ some tsk
    → new.state ≡ tsk.state
    → Quiet st (put i new st)
put-Quiet st i tsk new e s j = ground arith

send_control-Quiet :
    (id i flags : ℕ) (st st' : Stack) (sent : List Segment)
    → send_control id i flags st ≡ some (st', sent)
    → Quiet st st'
unfolding send_control
send_control-Quiet id i flags st st' sent e j = ground arith

tcp_update_window-Quiet :
    (i : ℕ) (cb : TcpCb) (st st' : Stack) → tcp_update_window i cb st ≡ some st' → Quiet st st'
unfolding tcp_update_window
tcp_update_window-Quiet i cb st st' e j = ground arith

detach-Quiet : (i : ℕ) (st st' : Stack) → detach i st ≡ some st' → Quiet st st'
unfolding detach
detach-Quiet i st st' e j = ground arith

enqueue-Quiet : (i : ℕ) (st st' : Stack) → tcp_sock_accept_enqueue i st ≡ some st' → Quiet st st'
unfolding tcp_sock_accept_enqueue detach
enqueue-Quiet i st st' e j = ground arith

timer-Quiet : (i : ℕ) (st st' : Stack) → tcp_set_timewait_timer i st ≡ some st' → Quiet st st'
unfolding tcp_set_timewait_timer tcp_sock_inc_ref_cnt
timer-Quiet i st st' e j = ground arith

abbrev Sets : ℕ → TcpState → Stack → Stack → Type 0
Sets i s st st' = (j : ℕ) → state_of st' j ≡ (if i == j then some s else state_of st j)

pub set-at :
    (i : ℕ) (s : TcpState) (st st' : Stack)
    → tcp_set_state i s st ≡ some st'
    → (j : ℕ) → state_of st' j ≡ (if i == j then some s else state_of st j)
unfolding tcp_set_state
set-at i s st st' e j = ground arith

link_hash-Quiet : (i : ℕ) (st st' : Stack) → link_hash i st ≡ some st' → Quiet st st'
unfolding link_hash
link_hash-Quiet i st st' e j = ground arith

hash_listen-Quiet :
    (i : ℕ) (tsk : Sock) (st st' : Stack) (ok : Bool)
    → hash_listen i tsk st ≡ some (st', ok)
    → Quiet st st'
unfolding hash_listen link_hash
hash_listen-Quiet i tsk st st' ok e j = ground arith

hash_established-Quiet :
    (i : ℕ) (tsk : Sock) (st st' : Stack) (ok : Bool)
    → hash_established i tsk st ≡ some (st', ok)
    → Quiet st st'
unfolding hash_established link_hash
hash_established-Quiet i tsk st st' ok e j = ground arith

tcp_hash-Quiet :
    (i : ℕ) (st st' : Stack) (ok : Bool) → tcp_hash i st ≡ some (st', ok) → Quiet st st'
unfolding tcp_hash
tcp_hash-Quiet i st st' ok e j = grind (arith, hash_listen-Quiet, hash_established-Quiet)

add_child-at :
    (i : ℕ) (tsk : Sock) (cb : TcpCb) (st : Stack) (j : ℕ)
    → state_of (add_child i tsk cb st) j
      ≡ (if st.fresh == j then some syn_recv else if i == j then some syn_recv else state_of st j)
unfolding add_child
add_child-at i tsk cb st j = ground arith

pub listen-at :
    (id i : ℕ) (cb : TcpCb) (st st' : Stack) (sent : List Segment)
    → tcp_state_listen id i cb st ≡ some (st', sent)
    → (j : ℕ)
    → state_of st' j
      ≡ (if st.fresh == j then some syn_recv else if i == j then some syn_recv else state_of st j)
unfolding tcp_state_listen
listen-at id i cb st st' sent e j =
    let (tsk, at, e₁) = bind-some (st.socks i) e in
    let ((st₁, hashed), e₂, e₃) = bind-some (tcp_hash st.fresh (add_child i tsk cb st)) e₁ in
    send_control-Quiet id st.fresh (tcp_syn + tcp_ack) st₁ st' sent e₃ j
    ∙ tcp_hash-Quiet st.fresh (add_child i tsk cb st) st₁ hashed e₂ j
    ∙ add_child-at i tsk cb st j

establish-at :
    (id i : ℕ) (cb : TcpCb) (st st' : Stack) (sent : List Segment)
    → establish id i cb st ≡ some (st', sent)
    → Sets i established st st'
unfolding establish
establish-at id i cb st st' sent e j =
    let (tsk, e₀, f₀) = bind-some (st.socks i) e in
    let asked = record tsk { conn = record (tsk.conn) { rcv_nxt = (cb.seq + 1) % 2 ^ 32 } } in
    let ((st₁, sent₁), e₁, f₁) = bind-some (send_control id i tcp_ack (put i asked st)) f₀ in
    let (st₂, e₂, f₂) = bind-some (tcp_update_window i cb st₁) f₁ in
    let (st₃, e₃, f₃) = bind-some (tcp_set_state i established st₂) f₂ in
    let (res, e₄, f₄) = bind-some (st₃.owned tsk.resources) f₃ in
    sym (ap (λ p. state_of p.0 j) (some-injective _ _ f₄))
    ∙ set-at i established st₂ st₃ e₃ j
    ∙ ap (λ o. if i == j then some established else o)
        (tcp_update_window-Quiet i cb st₁ st₂ e₂ j
          ∙ send_control-Quiet id i tcp_ack (put i asked st) st₁ sent₁ e₁ j
          ∙ put-Quiet st i tsk asked e₀ refl j)

pub syn_sent-at :
    (id i : ℕ) (cb : TcpCb) (st st' : Stack) (sent : List Segment)
    → tcp_state_syn_sent id i cb st ≡ some (st', sent)
    → cb.flags ≡ tcp_syn + tcp_ack
    → Sets i established st st'
unfolding tcp_state_syn_sent
syn_sent-at id i cb st st' sent e f =
    let test : (cb.flags == tcp_syn + tcp_ack) ≡ true = ground (arith, f) in
    establish-at id i cb st st' sent (sym (rw test refl) ∙ e)

receive_fin-at :
    (id i : ℕ) (next : TcpState) (cb : TcpCb) (st st' : Stack) (sent : List Segment)
    → receive_fin id i next cb st ≡ some (st', sent)
    → Sets i next st st'
unfolding receive_fin send_control tcp_set_state
receive_fin-at id i next cb st st' sent e j = ground arith

receive_data-Quiet :
    (i : ℕ) (cb : TcpCb) (st st' : Stack) → receive_data i cb st ≡ some st' → Quiet st st'
unfolding receive_data tcp_update_window
receive_data-Quiet i cb st st' e j = ground arith

wake_parent-Quiet : (i : ℕ) (st st' : Stack) → wake_parent i st ≡ some st' → Quiet st st'
unfolding wake_parent
wake_parent-Quiet i st st' e j = ground arith

pub syn_recv-at :
    (i : ℕ) (cb : TcpCb) (st st' : Stack) (sent : List Segment)
    → tcp_state_syn_recv i cb st ≡ some (st', sent)
    → Sets i established st st'
unfolding tcp_state_syn_recv
syn_recv-at i cb st st' sent e j =
    let (st₁, e₁, f₁) = bind-some (tcp_update_window i cb st) e in
    let (st₂, e₂, f₂) = bind-some (tcp_set_state i established st₁) f₁ in
    let (st₃, e₃, f₃) = bind-some (detach i st₂) f₂ in
    let (st₄, e₄, f₄) = bind-some (tcp_sock_accept_enqueue i st₃) f₃ in
    let (st₅, e₅, f₅) = bind-some (wake_parent i st₄) f₄ in
    ground (
      arith,
      tcp_update_window-Quiet i cb st st₁ e₁ j,
      set-at i established st₁ st₂ e₂ j,
      detach-Quiet i st₂ st₃ e₃ j,
      enqueue-Quiet i st₃ st₄ e₄ j,
      wake_parent-Quiet i st₄ st₅ e₅ j,
      f₅,
    )

fin-at :
    (id i : ℕ) (cb : TcpCb) (st st' : Stack) (sent : List Segment)
    → (if has_flag cb.flags tcp_fin then receive_fin id i close_wait cb st else some (st, []))
      ≡ some (st', sent)
    → (j : ℕ)
    → state_of st' j
      ≡ (if has_flag cb.flags tcp_fin && i == j then some close_wait else state_of st j)
fin-at id i cb st st' sent e j = elim (Bool-cases (has_flag cb.flags tcp_fin)) [
  | inl fin ↦
      ground (arith, receive_fin-at id i close_wait cb st st' sent (ground (arith, fin, e)) j)
  | inr no_fin ↦ ground (arith, no_fin, e)
]

psh-Quiet :
    (i : ℕ) (cb : TcpCb) (st st' : Stack) (sent sent' : List Segment)
    → (let out : Stack → Option (Stack × List Segment) = λ s. some (s, sent) in
        if has_flag cb.flags tcp_psh then (receive_data i cb st >>= out) else out st)
      ≡ some (st', sent')
    → Quiet st st'
psh-Quiet i cb st st' sent sent' e j = elim (Bool-cases (has_flag cb.flags tcp_psh)) [
  | inl psh ↦ ground (arith, receive_data-Quiet i cb st st' (ground (arith, psh, e)) j)
  | inr no_psh ↦ ground (arith, no_psh, e)
]

pub established-at :
    (id i : ℕ) (cb : TcpCb) (st st' : Stack) (sent : List Segment)
    → process_established id i cb st ≡ some (st', sent)
    → (j : ℕ)
    → state_of st' j
      ≡ (if has_flag cb.flags tcp_fin && i == j then some close_wait else state_of st j)
unfolding process_established
established-at id i cb st st' sent e j =
    let ((st₁, sent₁), e₁, f₁) =
      bind-some
        (if has_flag cb.flags tcp_fin then receive_fin id i close_wait cb st else some (st, []))
        e in
    psh-Quiet i cb st₁ st' sent₁ sent f₁ j ∙ fin-at id i cb st st₁ sent₁ e₁ j

pub enter_time_wait-at :
    (id i : ℕ) (cb : TcpCb) (st st' : Stack) (sent : List Segment)
    → enter_time_wait id i cb st ≡ some (st', sent)
    → Sets i time_wait st st'
unfolding enter_time_wait
enter_time_wait-at id i cb st st' sent e j =
    let ((st₁, sent₁), e₁, f₁) = bind-some (receive_fin id i time_wait cb st) e in
    let (st₂, e₂, f₂) = bind-some (tcp_set_timewait_timer i st₁) f₁ in
    ground
      (arith, receive_fin-at id i time_wait cb st st₁ sent₁ e₁ j, timer-Quiet i st₁ st₂ e₂ j, f₂)
