-- ===== src/Mq/Ring.antt =====
-- The messages between `head` and `tail` of the ring of skynet_mq.c, as a list.
use sdy.Base.{List}
use sdy.Ring.{ring_list}
use sdy.Mq.{Message, blank, Mq}

-- The queued messages, oldest first.
unfoldable pub contents : Mq → List Message
unfolding ring_list
contents q = ring_list blank q.queue q.cap q.head q.tail
