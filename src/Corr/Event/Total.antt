-- ===== src/Corr/Event/Total.antt =====
-- The evaluation of one group by the type of its correlation (`corr_on_event_apply` of
-- src/classify_corr.c), for every type.
use libsigma.Corr.Group.{Group}
use libsigma.Corr.Event.Stored.{Stored}
