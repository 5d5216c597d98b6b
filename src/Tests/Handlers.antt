-- ===== src/Tests/Handlers.antt =====
-- The handlers of the commands.
use memuncached.Payload.Receive.{Completes, recv_payload-sent}
use memuncached.Commands.Counters.{next_cell, Counts, inc-reply}
use memuncached.Commands.Set.{Delivers, Stored, set-Stored, add-Stored, set-overflow, set-closed}
use memuncached.Commands.{World, offset_value, memuncached_set, memuncached_add, memuncached_inc}
use memuncached.HashTable.Invariant.{bucket, slot}
use memuncached.Libc.Decimal.{atoll-print}
use memuncached.Libc.{
  atoll, to_int32, print_decimal, skip_space, signed_value, digits_value, clamp_pos, isspace,
}
use memuncached.Network.{Event, piece}
use memuncached.Prelude.Int.{ℤ, pos, negsuc}
use memuncached.Prelude.{◌≡◌, refl, true, List, [], ◌∷◌, ◌++◌, none, arith, codes, get_or-replicate}
use memuncached.Run.{fault, out_of_bounds, out_of_fuel, Returns}
use memuncached.Tests.Numbers.{whole_numbers}
use memuncached.Tests.Table.{empty, empty-IsValid, key, counting, counting-IsValid}
use memuncached.Utils.{isdigit}

atoll-print_example : atoll (print_decimal (negsuc 11) ++ codes " x") ≡ negsuc 11
unfolding isdigit
atoll-print_example = atoll-print (negsuc 11) (codes " x") (omega arith) refl

abbrev pub arriving : List Event
arriving = piece b'h' (codes "i") ∷ piece 13 (10 ∷ codes "GET") ∷ []

abbrev pub before : World ℤ
before = record {
  table = empty;
  clients = record { array = []; count = 0; size = 0 };
  input = arriving;
  out = [];
  is_thread_running = true;
}

recv_payload-sent_example : Completes 5 [] (0 ∷ 0 ∷ 0 ∷ 0 ∷ []) arriving
recv_payload-sent_example =
    recv_payload-sent 5 [] (0 ∷ 0 ∷ 0 ∷ 0 ∷ []) arriving (omega arith) (omega arith)

two : to_int32 (atoll (codes "2")) ≡ pos 2
unfolding to_int32 atoll skip_space isspace signed_value digits_value isdigit clamp_pos
two = refl

pub delivered : Delivers 5 (codes "2") (0 ∷ []) 0 2 arriving
delivered = record {
  announced = two;
  in_range = omega arith;
  no_more = omega arith;
  there = omega arith;
  comes = omega arith;
  rounds = omega arith;
}

set-Stored_example :
    Returns
      (memuncached_set 5 before key (codes "2") (codes "2") (0 ∷ []) 0 true)
      λ w'. Stored before key (codes "2") (0 ∷ []) 0 2 w'
set-Stored_example =
    set-Stored 5 before key (codes "2") (codes "2") (0 ∷ []) 0 2 delivered empty-IsValid

add-Stored_example :
    Returns
      (memuncached_add 5 before key (codes "2") (codes "2") (0 ∷ []) 0)
      λ w'. Stored before key (codes "2") (0 ∷ []) 0 2 w'
unfolding slot
add-Stored_example =
    add-Stored 5 before key (codes "2") (codes "2") (0 ∷ []) 0 2 delivered empty-IsValid
      (get_or-replicate 3 (slot empty key) none)

-- The same connection to a server whose table has the key.
abbrev pub taken : World ℤ
taken = record before { table = counting }

set-overflow_example :
    memuncached_set 5 before key (codes "2") (codes "2") (codes "abcde") 5 true
    ≡ fault out_of_bounds
set-overflow_example =
    set-overflow 5 before key (codes "2") (codes "2") (codes "abcde") 5 2 true two (omega arith)
      (omega arith) (omega arith)

abbrev closed : World ℤ
closed = record before { input = [] }

set-closed_example :
    memuncached_set 9 closed key (codes "2") (codes "2") (codes "ab") 2 true ≡ fault out_of_fuel
set-closed_example =
    set-closed 9 closed key (codes "2") (codes "2") (codes "ab") 2 2 true two (omega arith)
      (omega arith) (omega arith) refl

inc-reply_example : Returns (memuncached_inc taken key none none) (
    Counts taken key
      (next_cell whole_numbers.add key (bucket taken.table key) (offset_value none) none))
inc-reply_example = inc-reply taken key none none counting-IsValid
