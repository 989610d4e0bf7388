-- ===== src/WithdrawalTests.antt =====
-- A run of the registration manager in which the stake of the manager is withdrawn, and the theorem
-- on the withdrawals there.
use rif_relay_server.Base.{false, List, [], ◌∷◌, Text}
use rif_relay_server.TxStore as Store
use rif_relay_server.TxStore.Log.{Log}
use rif_relay_server.TxManager as Manager
use rif_relay_server.Amounts as Amounts
use rif_relay_server.Events.{TypedEvent, stake_unlocked, stake_withdrawn}
use rif_relay_server.Registration.{Registration}
use rif_relay_server.Registration.Methods as Methods
use rif_relay_server.ServerSamples.{event_at, sample_context, sample_registration}

-- The stake is unlocked, to be withdrawn at block 150, and withdrawn.
abbrev stake_events : List TypedEvent
stake_events = event_at stake_unlocked 97 1 ∷ event_at stake_withdrawn 98 1 ∷ []

abbrev withdrawn_end : Registration Log
withdrawn_end =
    (Methods.handle_decoded_events sample_context stake_events [] 160 false sample_registration).1

abbrev withdrawal_hashes : List Text
withdrawal_hashes =
    (35 ∷ 2 ∷ 7 ∷ 60 ∷ [])
    ∷ (35 ∷ 1 ∷ 7 ∷ 60 ∷ [])
    ∷ (35 ∷ 2 ∷ 8 ∷ 60 ∷ [])
    ∷ (35 ∷ 2 ∷ 9 ∷ 60 ∷ [])
    ∷ []
