-- ===== src/Lib.antt =====
-- A verification library for the C core of skynet, the actor runtime under the game servers of this
-- repository (skynet/skynet-src, skynet/lualib-src, skynet/service-src).
--
-- A service is a context that answers to a handle (skynet_handle.c). Services send each other
-- messages: each context owns a message queue (skynet_mq.c), and the queues that wait for a worker
-- are linked in one global queue. Worker threads take a queue from it, work on its messages, and put
-- it back (skynet_server.c). The content of a message is Lua values packed by lua-seri.c. Clients log
-- in with a secret that lua-crypt.c exchanges. Delays are timers of a wheel that a thread of its own
-- turns (skynet_timer.c). The harbor service carries messages between nodes (service_harbor.c).
--
-- Files and sources:
--   Base: tests on numbers, the conditional, fallible steps, and lemmas on lists, remainders and bits.
--   Ring: the loop with which skynet_mq.c, lua-netpack.c and service_harbor.c copy a ring out of an
--     array, and in Ring/Copy what storing and taking do to what it copies.
--   Mq: skynet/skynet-src/skynet_mq.c, one `struct message_queue`. `enqueue` is `skynet_mq_push` up to
--     its test of `in_global`, `pop` is `skynet_mq_pop`, `create` is `skynet_mq_create`, `mq_length`
--     and `take_overload` are `skynet_mq_length` and `skynet_mq_overload`. Mq/Ring has the ring as a
--     list, Mq/Fifo the refinement, Mq/Invariant the indices, Mq/Overload and Mq/Report the counters.
--   GlobalMq: the rest of that file. A store maps addresses to queues; `global_push`, `global_pop`,
--     `mq_push`, `mq_pop`, `mark_release` and `mq_release` are the functions of these names with the
--     prefix `skynet_`. GlobalMq/Chain has the list that the `next` fields make, GlobalMq/Frame what
--     the operations leave alone, GlobalMq/Release the end of a queue, GlobalMq/Schedule threads as a
--     step relation after `skynet_context_new` and `skynet_context_message_dispatch`.
--   Handle: skynet/skynet-src/skynet_handle.c, the slots of contexts. `register`, `grab`, `retire` are
--     `skynet_handle_register`, `skynet_handle_grab` and `skynet_handle_retire`.
--   HandleName: the names in that file. `findname` and `namehandle` are `skynet_handle_findname` and
--     `skynet_handle_namehandle`, whose binary searches are `bisect`.
--   Exchange: skynet/lualib-src/lua-crypt.c, the Diffie-Hellman exchange: `mul_mod_p`, `powmodp`,
--     `dhexchange` and `dhsecret` (`ldhexchange`, `ldhsecret`).
--   Base64, Hex: that file's `lb64encode` and `lb64decode`, `ltohex` and `lfromhex`.
--   Memory: `memcpy` into an array.
--   Netpack: skynet/lualib-src/lua-netpack.c. Netpack/Input has `filter_data_`, `push_more` and
--     `lfilter`; Netpack/Frames the specification by bytes; Netpack/Chains the pending packets,
--     Netpack/Packets the ring; Netpack/Filter, Netpack/Begin and Netpack/Stream relate the code to
--     the specification; Netpack/Serve and Netpack/Deliver are about a gate that empties the queue
--     (skynet/lualib/snax/gateserver.lua).
--   Seri: skynet/lualib-src/lua-seri.c. Seri/Value has the Lua values, Seri/Writer the write blocks,
--     Seri/Pack the packing with its conversions to `int`, Seri/Unpack the reading, Seri/Table what
--     `lua_rawset` does by the rules of Lua's manual for keys; the others are their proofs.
--   Timer: skynet/skynet-src/skynet_timer.c. `timer_add`, `timer_update` and `updatetime` are the
--     functions of these names; Timer/Words and Timer/Places say which list a timer is in, Timer/Lists
--     and Timer/Update what moving lists does, Timer/Ticks and Timer/Clock what ticks do.
--   Harbor: skynet/service-src/service_harbor.c, its messages, queue (Harbor/Queue) and frames
--     (Harbor/Wire). Harbor/Peer has the cases of `push_socket_data` and Harbor/Machine its
--     specification by bytes; Harbor/Collect, Harbor/Parts, Harbor/Sound and Harbor/Stream relate the
--     two, Harbor/Delivery is about whole frames. Harbor/Node has the peers and the names, Harbor/Loop
--     the commands and `mainloop`; Harbor/Names, Harbor/Send, Harbor/Connect and Harbor/Errors are
--     about these. Harbor/Live, Harbor/Invariant, Harbor/Events and Harbor/Runs are about what every
--     event keeps. What the service asks of the runtime is a list of effects.
--
-- State is passed explicitly. A failed `assert` is `none`. Each function that holds a spinlock or the
-- storage's lock for its whole body is one step, so that concurrent calls are sequences of steps.
-- Numbers are natural numbers; a Lua integer is its 64-bit pattern.
--
-- Bounds and fuel: the loop on the overload threshold doubles a positive number, so the length and one
-- more is enough; `skynet_handle_register` doubles the slots at most once, so two rounds are enough;
-- `_drop_queue` takes one message a round; unpacking reads at least a byte in two calls, so twice the
-- length and three more is enough; a binary search makes its range shorter each
-- round; a round of the loop of `push_socket_data` but the last takes a byte, so two more than the
-- bytes are enough; `drain` takes a message a round, so the size of the queue is enough; `timer_shift`
-- looks at four fields of the time; `push_more` takes at least a byte a round, so the number of bytes
-- is enough; the loops of lua-crypt.c halve a 64-bit word, so 64 rounds are enough.
-- The byte count of the write blocks of lua-seri.c, an `int`, does not wrap in the model; the theorems
-- on packing are about results that are shorter than 2 ^ 31 bytes.
--
-- Not modelled: allocation and its failure, freeing, reference counts of contexts, the Lua API (its
-- values are the data types of Seri/Value), the system's clock and sockets, `sscanf`, `sprintf` and
-- the handles that `skynet_send` finds for the harbor service, which are arguments, start-up, the
-- libraries under skynet/3rd and lualib-src/lua-cjson, and the Lua scripts.
pub mod Base
pub mod Ring
pub mod Memory
pub mod Mq
pub mod GlobalMq
pub mod HandleName
pub mod Exchange
pub mod Harbor
pub mod Netpack
pub mod Hex
pub mod Timer
pub mod Base64
pub mod Handle
pub mod Seri
