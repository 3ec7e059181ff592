-- ===== src/ServerLink/Tests.antt =====
-- The link at concrete inputs.
use smart_gateway.Prelude.{◌≡◌, ◌++◌, refl, arith, true, false, [], ◌∷◌, none, replicate, List}
use smart_gateway.Prelude.Text.{codes}
use smart_gateway.Prelude.Int.{pos}
use smart_gateway.DeviceManager.{device_manager_init}
use smart_gateway.MessageQueue.{MessageQueue, no_message}
use smart_gateway.GatewayApp.{gateway_app_init}
use smart_gateway.GatewayApp.Upstream.{message_of}
use smart_gateway.ServerLink.{Link, Calls, timed_out}
use smart_gateway.ServerLink.Delivery.{
  LinkEvent, round, pushed, waiting, run_link, run_link-conserves,
}

abbrev new_queue : MessageQueue
new_queue = record {
  items = replicate 32 no_message;
  head = 0;
  tail = 0;
  count = 0;
  shutting_down = false;
}

abbrev new_link : Link
new_link = record {
  context = gateway_app_init (codes "127.0.0.1") 9000;
  device_manager = device_manager_init;
  queue = new_queue;
  pending_message = none;
  tcp_buffer = [];
}

-- A connection on which the message cannot be sent, and one on which it can.
abbrev failing : Calls
failing = record {
  connect_time = pos 10;
  connected_fd = pos 3;
  message_sent = false;
  disconnect_time = pos 11;
  arrived = timed_out;
  hung_up = false;
  nacks_sent = [];
}

abbrev working : Calls
working = record failing { connect_time = pos 12; message_sent = true }

abbrev events : List LinkEvent
events = pushed (message_of (codes "x")) ∷ round failing ∷ round working ∷ []

run_link-conserves_example :
    let (sent, accepted, m) = run_link events new_link in
    sent ++ waiting m ≡ waiting new_link ++ accepted
run_link-conserves_example = run_link-conserves events new_link (record {
  size = refl;
  head_inside = omega arith;
  tail_behind = omega arith;
  bounded = omega arith;
})
