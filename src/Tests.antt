-- ===== src/Tests.antt =====
-- Concrete runs, and the theorems at concrete inputs.
mod ToyHost
mod Data
mod LedgerExamples
mod CashierExamples
mod LoopExamples
mod ChefExamples
mod ConsumerExamples
mod ConsoleExamples
mod SignedAuthExamples
mod ReportExamples
mod McpExamples
mod MenuExamples
mod OperatorExamples
mod WindowExamples
mod DrillExamples
