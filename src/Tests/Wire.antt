-- ===== src/Tests/Wire.antt =====
-- A write of the kernel as bytes, and a framework with one socket and one command.
use mathlib.Core.List.{flatten}
use io_tbased_raid.Prelude.{◌≡◌, refl, true, false, some, none, List, [], ◌∷◌, ◌++◌, arith, map}
use io_tbased_raid.Prelude.Maps.{lookup}
use io_tbased_raid.Prelude.Results.{ok}
use io_tbased_raid.Factory
use io_tbased_raid.Ticket.{TaskResult}
use io_tbased_raid.NbdProxy.{NbdRequest, NbdProxy, Outgoing, write_args, on_nbd_response}
use io_tbased_raid.NbdProxy.Wire.{get_task_args_from, outgoing_bytes}
use io_tbased_raid.NbdProxy.Wire.RoundTrip.{IsRequest, request_bytes_answered}
use io_tbased_raid.DirMonitor.Watch
use io_tbased_raid.Reactor
use io_tbased_raid.Dispatcher.{register}
use io_tbased_raid.Framework.{Framework, Commands}
use io_tbased_raid.Tests.Packets.{abi, no_requests}
use io_tbased_raid.Tests.Events.{ntohl, ntohl-IsNtohl}

abbrev write_request : NbdRequest
write_request = record {
  magic = 627086611;
  type = 1;
  handle = 1 ∷ 2 ∷ 3 ∷ 4 ∷ 5 ∷ 6 ∷ 7 ∷ 8 ∷ [];
  from = 258;
  len = 2;
}

write_request-IsRequest : IsRequest write_request
write_request-IsRequest = record {
  magic_fits = omega arith;
  type_fits = omega arith;
  handle_fits = refl;
  from_fits = omega arith;
  len_fits = omega arith;
}

abbrev failed : TaskResult
failed = record { uid = 7; result = false; length = 2; buffer = none }

no_reply_kept : lookup 7 no_requests.responses ≡ none
unfolding lookup
no_reply_kept = refl

-- The request, its two bytes of data, and the first byte of what comes next. The result is a failure.
request_bytes_answered_example :
    (p' : NbdProxy) × (out : List Outgoing) × (get_task_args_from ntohl abi
        (37 ∷ 96 ∷ 149 ∷ 19 ∷ 0 ∷ 0 ∷ 0 ∷ 1 ∷ 1 ∷ 2 ∷ 3 ∷ 4 ∷ 5 ∷ 6 ∷ 7 ∷ 8 ∷ 0 ∷ 0 ∷ 0 ∷ 0 ∷ 0 ∷ 0
          ∷ 1 ∷ 2 ∷ 0 ∷ 0 ∷ 0 ∷ 2 ∷ 90 ∷ 91 ∷ 37 ∷ [])
        no_requests
      ≡ ok (p', some (write_args 7 258 2 (some (90 ∷ 91 ∷ [])))))
    × ((on_nbd_response abi failed p').sent ≡ [] ++ out)
    × (flatten (map (outgoing_bytes ntohl) out)
        ≡ 103 ∷ 68 ∷ 102 ∷ 152 ∷ 0 ∷ 0 ∷ 0 ∷ 5 ∷ 1 ∷ 2 ∷ 3 ∷ 4 ∷ 5 ∷ 6 ∷ 7 ∷ 8 ∷ [])
    × (on_nbd_response abi failed (on_nbd_response abi failed p') ≡ on_nbd_response abi failed p')
request_bytes_answered_example =
    request_bytes_answered ntohl ntohl abi write_request (some (90 ∷ 91 ∷ [])) (37 ∷ []) no_requests
      failed failed ntohl-IsNtohl ntohl-IsNtohl (omega arith) (omega arith) write_request-IsRequest
      refl (refl, refl) no_reply_kept refl refl

abbrev no_commands : Commands
no_commands = Factory.empty

abbrev constructed : Framework
constructed = record {
  monitor = record { notify_open = true; running = false; joinable = false };
  on_open = record { reg_list = 0 ∷ [] };
  on_close = record { reg_list = 1 ∷ [] };
  reactor = Reactor.register 3 Reactor.read 8 (record { listen_funcs = []; running = false });
  loader = record { dll_map = []; closed_handles = [] };
}

abbrev running : Framework
running = record constructed {
  monitor = record { notify_open = true; running = true; joinable = true };
}

-- One plugin is loaded later.
abbrev with_plugin : Framework
with_plugin = record running {
  loader = record { dll_map = ((97 ∷ [], 5) ∷ []); closed_handles = [] };
}
