-- ===== src/Tests.antt =====
-- Runs of the model on small inputs, and the theorems at inputs that meet their hypotheses.
mod Setting
mod StegoRuns
mod ClusterRuns
mod KeyRuns
mod KeytabRuns
mod OftRuns
mod BftRuns
mod BitRuns
mod BsfsRuns
mod MatrixRuns
mod FileRuns
mod MakeRuns
mod WriteRuns
mod EncRuns
