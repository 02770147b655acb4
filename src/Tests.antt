-- ===== src/Tests.antt =====
-- Runs at fixed inputs, and the theorems at concrete inputs.
mod Net
mod Store
mod Spending
mod Access
mod Handlers
mod Llm
mod Config
mod Client
mod Floats
mod LoadTest
mod Service
