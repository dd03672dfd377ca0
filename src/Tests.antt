-- ===== src/Tests.antt =====
-- The theorems at concrete inputs, and runs of the model.
mod Systems
mod Several
mod Streams
mod Opening
mod Polling
mod Frames
mod Results
mod Options
mod Addresses
mod Opened
mod Waiting
mod Secure
mod SecureRuns
mod SecureOwned
mod Templates
mod Settings
mod MbedSystems
mod MbedSockets
mod MbedHandshake
mod MbedContexts
