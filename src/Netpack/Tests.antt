-- ===== src/Netpack/Tests.antt =====
-- The theorems on lua-netpack.c for two sockets whose bytes come mixed.
use sdy.Netpack.{NetPack, Queue, new_queue, lpack}
use sdy.Netpack.Input.{Answer, filter_data}
use sdy.Netpack.Frames.{unframe}
use sdy.Netpack.Chains.{pending_of}
use sdy.Netpack.Filter.{Took}
use sdy.Netpack.Begin.{handed, Queues}
use sdy.Netpack.Stream.{filter_data_lem}
use sdy.Netpack.Serve.{serve_all, new_queue-Served}
use sdy.Netpack.Deliver.{sent_by, texts_of, packed, packets_delivered}
use sdy.Base.{List, [], arith, none, refl, some, ℕ, ◌∷◌, ◌≡◌}

abbrev texts : List (List ℕ)
texts = (104 ∷ 105 ∷ []) ∷ (33 ∷ []) ∷ []

-- Of socket 7 two packets come, cut in the first; of socket 8 one byte.
abbrev mixed : List (ℕ × List ℕ)
mixed = (7, 0 ∷ 2 ∷ 104 ∷ []) ∷ (8, 0 ∷ []) ∷ (7, 105 ∷ 0 ∷ 1 ∷ 33 ∷ []) ∷ []

filter_data_lem_example :
    (a : Answer) × (next : Queue) × (filter_data none 7 (0 ∷ []) ≡ some (a, next))
    × Took new_queue 7 8 (unframe (pending_of new_queue 7) (0 ∷ [])) next (handed a)
    × Queues a new_queue next
filter_data_lem_example =
    filter_data_lem none 7 8 (0 ∷ []) new_queue-Served.valid (omega arith) (omega arith)

mixed-packed : packed texts ≡ some (sent_by 7 mixed)
unfolding lpack
mixed-packed = refl

packets_delivered_example :
    (ps : List NetPack) × (next : Queue) × (serve_all new_queue mixed ≡ some (ps, next))
    × (texts_of 7 ps ≡ texts)
packets_delivered_example =
    packets_delivered 7 texts mixed (omega arith, (omega arith, (omega arith, refl))) mixed-packed
