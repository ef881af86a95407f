-- ===== src/Tests/Storing.antt =====
-- Runs of the bounded stores, and their theorems at concrete inputs.
use theokit_gateways.Prelude.{◌≡◌, ◌≢◌, refl, true, none, some, [], ◌∷◌, ◌++◌, arith}
use theokit_gateways.Js.{Text, lit, Text-discrete}
use theokit_gateways.JsMap as Map
use theokit_gateways.Stores.SeenUids as SeenUids
use theokit_gateways.Stores.Threads as Threads
use theokit_gateways.Stores.Threads.{EmailHeaders, ThreadContext}
use theokit_gateways.Stores.ReplyTokens as ReplyTokens
use theokit_gateways.Stores.ReplyTokens.{Entry, ReplyTokenCache}

add_all-has_example :
    SeenUids.has 7 (SeenUids.add_all (8 ∷ 9 ∷ []) (SeenUids.add 7 (1 ∷ []))) ≡ true
unfolding SeenUids.has
add_all-has_example = SeenUids.add_all-has (8 ∷ 9 ∷ []) 7 (1 ∷ []) refl (omega arith)

abbrev email : EmailHeaders
email = record { message_id = lit "<m1>"; subject = lit "Hi"; references = none }

no_threads-IsValid : Threads.IsValid []
no_threads-IsValid = record { bounded = omega arith; distinct = tt }

record_from_inbound_lem_example :
    Threads.IsValid (Threads.record_from_inbound email [])
    × (Threads.lookup (lit "<m1>") (Threads.record_from_inbound email [])
        ≡ some (Threads.context_of email))
    × (Threads.record_from_inbound email []
        ≡ Map.delete Text-discrete (lit "<m1>") (Threads.evict (lit "<m1>") [])
          ++ (lit "<m1>", Threads.context_of email) ∷ [])
record_from_inbound_lem_example = Threads.record_from_inbound_lem email [] no_threads-IsValid

abbrev one_slot : ReplyTokenCache
one_slot = record {
  cache = (lit "ana", record { token = lit "t1"; expires_at = 60 }) ∷ [];
  ttl_ms = 60;
  capacity = 1;
}

one_slot-IsValid : ReplyTokens.IsValid one_slot
unfolding Map.get
one_slot-IsValid = record { bounded = omega arith; distinct = (refl, tt) }

put-IsValid_example : ReplyTokens.IsValid (ReplyTokens.put (lit "bo") (lit "t2") 5 one_slot)
put-IsValid_example = ReplyTokens.put-IsValid (lit "bo") (lit "t2") 5 one_slot one_slot-IsValid

ana_is_not_bo : ◌≢◌ {A = Text} (lit "bo") (lit "ana")
ana_is_not_bo h = cc
