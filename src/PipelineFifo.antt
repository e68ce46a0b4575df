-- ===== src/PipelineFifo.antt =====
-- examples/pipeline_fifo.hpp: the pipeline whose stages run in parallel and deliver in order.
pub mod Queue
mod Elements
pub mod Stage
pub mod Chain
pub mod EndStage
