-- ===== src/Queue/FreeBusy.antt =====
-- adapt/adaptFBQ, adapt/adaptFBSharedQ and adapt/adaptFBPSharedQ: a free queue and a busy queue.
-- `Plain` is the pair without mutexes, `Shared` the pair that the server uses.
pub mod Plain
pub mod Shared
pub mod Laws
