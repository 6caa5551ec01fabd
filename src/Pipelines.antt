-- ===== src/Pipelines.antt =====
-- core/pipelines: the steps of the classic-transaction pipeline in order, with the connectors between
-- them, and plugins/fee-bump/src, the plugin that a pipeline runs on the input of its last step.
pub mod Classic
pub mod FeeBump
mod Tests
use colibri.Common.{Result, ok, err}

-- The next step, on the output of the one before; an error ends the pipeline.
abbrev pub and_then :
    {W E A B : Type 0} → W × Result E A → (A → W → W × Result E B) → W × Result E B
and_then (w, ok a) next = next a w
and_then (w, err e) next = (w, err e)

-- The error of a step as one of the pipeline.
abbrev pub as_error : {W E F A : Type 0} → (E → F) → W × Result E A → W × Result F A
as_error f (w, ok a) = (w, ok a)
as_error f (w, err e) = (w, err (f e))
