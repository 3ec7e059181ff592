-- ===== src/CommandManager/Tests.antt =====
-- The command manager at concrete inputs.
use smart_gateway.Prelude.{
  ℕ, ◌+◌, ◌≤◌, ◌≡◌, refl, arith, true, false, ◌&&◌, ◌==◌, if◌then◌else◌, List, [], ◌∷◌, Option,
  none, some, length, take,
}
use smart_gateway.Prelude.Text.{Text}
use smart_gateway.Prelude.Int.{pos}
use smart_gateway.Frame.Tests.{node01, temperature}
use smart_gateway.FrameParser.Decode.{KvMessage, NackMessage}
use smart_gateway.CommandManager.{
  waiting, acked, nacked, Manager, Sweep, is_free, find_slot, command_manager_create,
  command_manager_send, command_manager_on_ack, command_manager_on_nack, command_manager_query,
  command_manager_check_timeouts,
}
use smart_gateway.CommandManager.Answers.{awaits, query-on_ack, query-on_nack}
use smart_gateway.CommandManager.Timeouts.{
  limits, may_retry, must_fail, retry_of, collect, check_report,
}
use smart_gateway.CommandManager.Expiry.{SweepCall}
use smart_gateway.CommandManager.Numbering.{IsValid, create-IsValid}
use smart_gateway.CommandManager.Sends.{
  IsSendable, send, ack, check, run, all_given, send-room, run-IsValid, create-all_given,
}

abbrev gw : Text
gw = b'G' ∷ b'W' ∷ []

-- One command, sent at time 100.
one_sent : Manager
one_sent = (command_manager_send command_manager_create node01 gw (temperature ∷ []) 100).1

abbrev answer : KvMessage
answer = record { node_id = node01; sequence = 1; fields = [] }

abbrev refusal : NackMessage
refusal = record { node_id = node01; sequence = 1; error = b'x' ∷ [] }

sendable : IsSendable node01 gw (temperature ∷ [])
sendable = omega arith

waits : command_manager_query one_sent 1 ≡ some waiting
unfolding one_sent command_manager_query command_manager_send command_manager_create find_slot
waits = refl

is_answered : command_manager_query (command_manager_on_ack one_sent answer).1 1 ≡ some acked
unfolding one_sent command_manager_query command_manager_send command_manager_create find_slot
    command_manager_on_ack smart_gateway.CommandManager.command_manager_find
    smart_gateway.Prelude.Text.text_eq
is_answered = refl

query-on_ack_example :
    command_manager_query (command_manager_on_ack one_sent answer).1 1
    ≡ (if awaits one_sent 1 node01 && 1 == 1 then some acked else command_manager_query one_sent 1)
query-on_ack_example = query-on_ack one_sent answer 1

query-on_nack_example :
    command_manager_query (command_manager_on_nack one_sent refusal).1 1
    ≡ (if awaits one_sent 1 node01 && 1 == 1 then some nacked else command_manager_query one_sent 1)
query-on_nack_example = query-on_nack one_sent refusal 1

send-room_example :
    let (n, m) = command_manager_send command_manager_create node01 gw (temperature ∷ []) 100 in
    (n ≡ some command_manager_create.next_sequence)
    × (m.next_sequence ≡ command_manager_create.next_sequence + 1)
    × IsValid m
send-room_example =
    send-room command_manager_create create-IsValid node01 gw (temperature ∷ []) 100 sendable
      (unfold command_manager_create in omega arith)

check_report_example :
    let l = limits 200 5 3 (some 8) (some 8) in
    (s : Sweep) × ((command_manager_check_timeouts one_sent 200 (pos 5) (pos 3) (some 8) (some 8)).0
      ≡ some s)
    × (s.retried ≡ take 8 (collect (may_retry l) retry_of one_sent.entries))
    × (s.retry_count ≡ length s.retried)
    × (s.retry_count ≤ 8)
    × (s.timed_out ≡ take 8 (collect (must_fail l) (λ e. e.sequence) one_sent.entries))
    × (s.timeout_count ≡ length s.timed_out)
    × (s.timeout_count ≤ 8)
check_report_example = check_report one_sent 200 5 3 8 8

-- One array has no room, the other is NULL.
abbrev first_sweep : SweepCall
first_sweep = record { now = 105; retry_capacity = some 0; timeout_capacity = none }

abbrev second_sweep : SweepCall
second_sweep = record { now = 110; retry_capacity = some 64; timeout_capacity = some 0 }

create-all_given_example :
    all_given command_manager_create (
      send node01 gw (temperature ∷ []) 100 ∷ ack answer ∷ check 200 (pos 5) (pos 3) none none ∷ [])
    ≤ 64
create-all_given_example =
    create-all_given (
      send node01 gw (temperature ∷ []) 100 ∷ ack answer ∷ check 200 (pos 5) (pos 3) none none ∷ [])

run-IsValid_example :
    IsValid (run command_manager_create (send node01 gw [] 100 ∷ ack answer ∷ []))
    × ((run command_manager_create (send node01 gw [] 100 ∷ ack answer ∷ [])).next_sequence
        ≡ command_manager_create.next_sequence
          + all_given command_manager_create (send node01 gw [] 100 ∷ ack answer ∷ []))
run-IsValid_example =
    run-IsValid command_manager_create (send node01 gw [] 100 ∷ ack answer ∷ []) create-IsValid
